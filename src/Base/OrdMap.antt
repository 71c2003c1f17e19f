-- ===== src/Base/OrdMap.antt =====
-- `BTreeMap<String, V>`: the entries in ascending order of their keys, which is the order in which the
-- map is iterated.
use Prim.Native.Nat.{Ordering}
use Prim.Native.String.{compare}
use text.Mathlib.TextEquality.{eq_iff, path_by_compare}
use mirrorlane.Base.{
  ◌≡◌, refl, true, inl, inr, Bool-cases, map, String, some, List, [], ◌∷◌, arith, ◌==◌, string_eq,
  if◌then◌else◌, get_or,
}
use mirrorlane.Base.HashMap.{get}
use mirrorlane.Base.Lists.{In, here, there, In-map}
use mirrorlane.Base.Text.{str_lt, str_lt_irrefl, compare-flip, str_lt_trans}

abbrev pub OrdMap {ℓ} : Type ℓ → Type ℓ
OrdMap V = List (String × V)

module _ {ℓ} {V : Type ℓ} where
  unfoldable pub insert : String → V → OrdMap V → OrdMap V
  insert k v [] = (k, v) ∷ []
  insert k v ((j, w) ∷ m) = elim (compare k j) [
    | Ordering.lt ↦ (k, v) ∷ (j, w) ∷ m
    | Ordering.eq ↦ (k, v) ∷ m
    | Ordering.gt ↦ (j, w) ∷ insert k v m
  ]

  -- `*entry(k).or_insert(d) = f(..)`
  unfoldable pub update : String → V → (V → V) → OrdMap V → OrdMap V
  update k d f m = insert k (f (get_or (get k m) d)) m

  -- Every key is above `k`.
  abbrev pub Above : String → OrdMap V → Type 0
  Above k [] = Unit
  Above k ((j, _) ∷ m) = (str_lt k j ≡ true) × Above k m

  -- Strictly ascending keys
  abbrev pub IsAscending : OrdMap V → Type 0
  IsAscending [] = Unit
  IsAscending ((k, _) ∷ m) = Above k m × IsAscending m

  pub get-insert :
      (k j : String) (v : V) (m : OrdMap V)
      → get j (insert k v m) ≡ (if k == j then some v else get j m)
  unfolding get insert
  get-insert k j v [] = refl
  get-insert k j v ((i, w) ∷ m) =
      ground (arith, eq_iff k j, eq_iff i j, path_by_compare k i, get-insert k j v m)

  Above-trans : (k j : String) (m : OrdMap V) → str_lt k j ≡ true → Above j m → Above k m
  Above-trans k j [] h a = tt
  Above-trans k j ((i, w) ∷ m) h (b, a) = (str_lt_trans k j i h b, Above-trans k j m h a)

  Above-insert :
      (i k : String) (v : V) (m : OrdMap V) → str_lt i k ≡ true → Above i m → Above i (insert k v m)
  unfolding insert
  Above-insert i k v [] h a = (h, tt)
  Above-insert i k v ((j, w) ∷ m) h (b, a) = ground (arith, Above-insert i k v m h a)

  pub insert-IsAscending :
      (k : String) (v : V) (m : OrdMap V) → IsAscending m → IsAscending (insert k v m)
  unfolding insert
  insert-IsAscending k v [] h = (tt, tt)
  insert-IsAscending k v ((j, w) ∷ m) (a, u) = ground (
    arith,
    insert-IsAscending k v m u,
    Above-insert j k v m,
    Above-trans k j m,
    compare-flip k j,
    path_by_compare k j,
  )

  -- Every key satisfies `P`.
  abbrev pub AllKeys : (String → Type 0) → OrdMap V → Type 0
  AllKeys P [] = Unit
  AllKeys P ((k, _) ∷ m) = P k × AllKeys P m

  AllKeys-insert :
      (P : String → Type 0) (k : String) (v : V) (m : OrdMap V)
      → P k
      → AllKeys P m
      → AllKeys P (insert k v m)
  unfolding insert
  AllKeys-insert P k v [] p a = (p, tt)
  AllKeys-insert P k v ((j, w) ∷ m) p (q, a) = ground (arith, AllKeys-insert P k v m)

  pub AllKeys-update :
      (P : String → Type 0) (k : String) (d : V) (g : V → V) (m : OrdMap V)
      → P k
      → AllKeys P m
      → AllKeys P (update k d g m)
  unfolding update
  AllKeys-update P k d g m p a = AllKeys-insert P k (g (get_or (get k m) d)) m p a

  get-Above :
      (k j : String) (m : OrdMap V) → Above k m → In j (map (λ e. e.0) m) → str_lt k j ≡ true
  get-Above k j [] h i = elim i [ ]
  get-Above k j ((l, w) ∷ m) (h, a) (here e) = rw e h
  get-Above k j ((l, w) ∷ m) (h, a) (there i) = get-Above k j m a i

  -- An entry of an ascending map is what a lookup of its key finds.
  pub get-In : (k : String) (v : V) (m : OrdMap V) → IsAscending m → In (k, v) m → get k m ≡ some v
  unfolding get
  get-In k v [] h i = elim i [ ]
  get-In k v ((j, w) ∷ m) (a, h) (here e) = ground (arith, e, eq_iff j k)
  get-In k v ((j, w) ∷ m) (a, h) (there i) = ground (
    arith,
    eq_iff j k,
    get-In k v m h i,
    get-Above j k m a (In-map (λ e. e.0) i),
    str_lt_irrefl k,
  )

-- What a lookup lists of an element comes from an entry.
pub In-get {ℓ} :
    {A : Type ℓ} (k : String) (a : A) (m : OrdMap (List A))
    → In a (get_or (get k m) [])
    → (as' : List A) × In (k, as') m
unfolding get
In-get k a [] i = elim i [ ]
In-get k a ((j, w) ∷ m) i = elim (Bool-cases (j == k)) [
  | inl e ↦ (w, here (ground (arith, eq_iff j k, e)))
  | inr e ↦ let (v, h) = In-get k a m (rw e at i) in (v, there h)
]
