-- ===== src/Base/HashMap.antt =====
-- `std::collections::HashMap` as the program uses it: `get`, `contains_key`, `insert`, and
-- `entry(k).or_default()`. The program does not depend on a map's iteration order, so the entries
-- are a list; `insert` replaces the value of a key that is there.
pub mod Writes
use mirrorlane.Base.{
  ◌≡◌, refl, Bool, true, false, Option, none, some, List, [], ◌∷◌, arith, Eq, ◌==◌, ==_refl,
  if◌then◌else◌, get_or,
}
use mirrorlane.Base.Lists.{contains}

abbrev pub HashMap {ℓ κ} : Type ℓ → Type κ → Type (ℓ ⊔ κ)
HashMap K V = List (K × V)

module _ {ℓ κ} {K : Type ℓ} {V : Type κ} where
  abbrev pub keys : HashMap K V → List K
  keys [] = []
  keys ((k, _) ∷ m) = k ∷ keys m

module _ {ℓ κ} {K : Type ℓ} {V : Type κ} ⦃e : Eq K⦄ where
  unfoldable pub get : K → HashMap K V → Option V
  get k [] = none
  get k ((j, v) ∷ m) = if j == k then some v else get k m

  unfoldable pub insert : K → V → HashMap K V → HashMap K V
  insert k v [] = (k, v) ∷ []
  insert k v ((i, old) ∷ m) = if i == k then (k, v) ∷ m else (i, old) ∷ insert k v m

  unfoldable pub contains_key : K → HashMap K V → Bool
  contains_key k m = elim (get k m) [ none ↦ false | some _ ↦ true ]

  -- `*entry(k).or_insert(d) = f(..)`: the value of `k`, or `d` where there is none, is mapped.
  unfoldable pub update : K → V → (V → V) → HashMap K V → HashMap K V
  update k d f m = insert k (f (get_or (get k m) d)) m

  pub get-nil : (k : K) → get k [] ≡ none
  unfolding get
  get-nil k = refl

  pub get-insert :
      (k j : K) (v : V) (m : HashMap K V)
      → get j (insert k v m) ≡ (if k == j then some v else get j m)
  unfolding get insert
  get-insert k j v [] = refl
  get-insert k j v ((i, w) ∷ m) =
      ground (arith, e.beq_iff k j, e.beq_iff i k, e.beq_iff i j, get-insert k j v m)

  pub get-insert_self : (k : K) (v : V) (m : HashMap K V) → get k (insert k v m) ≡ some v
  get-insert_self k v m = simp (get-insert, ==_refl)

  pub get-update :
      (k j : K) (d : V) (f : V → V) (m : HashMap K V)
      → get j (update k d f m) ≡ (if k == j then some (f (get_or (get k m) d)) else get j m)
  unfolding update
  get-update k j d f m = get-insert k j (f (get_or (get k m) d)) m

  -- A key is among the keys exactly when a lookup finds it.
  pub contains-keys : (k : K) (m : HashMap K V) → contains k (keys m) ≡ contains_key k m
  unfolding get contains_key
  contains-keys k [] = refl
  contains-keys k ((j, v) ∷ m) = ground (arith, contains-keys k m)

  -- An insert adds its key at the end of the keys, unless the map has it.
  pub keys-insert :
      (k : K) (v : V) (m : HashMap K V) → contains k (keys m) ≡ true → keys (insert k v m) ≡ keys m
  unfolding insert
  keys-insert k v [] h = cc
  keys-insert k v ((j, w) ∷ m) h = ground (arith, keys-insert k v m, e.beq_iff j k)

  pub insert_again : (k : K) (v : V) (m : HashMap K V) → get k m ≡ some v → insert k v m ≡ m
  unfolding get insert
  insert_again k v [] h = cc
  insert_again k v ((j, w) ∷ m) h = ground (arith, insert_again k v m, e.beq_iff j k)

  -- `remove(k)` as it leaves the map; its result is `get k`.
  unfoldable pub remove : K → HashMap K V → HashMap K V
  remove k [] = []
  remove k ((j, v) ∷ m) = let rest = remove k m in if j == k then rest else (j, v) ∷ rest

  pub get-remove :
      (k j : K) (m : HashMap K V) → get j (remove k m) ≡ (if k == j then none else get j m)
  unfolding get remove
  get-remove k j [] = ground arith
  get-remove k j ((i, w) ∷ m) =
      ground (arith, e.beq_iff k j, e.beq_iff i k, e.beq_iff i j, get-remove k j m)

  -- The entries whose keys fail the test
  unfoldable pub drop_where : (K → Bool) → HashMap K V → HashMap K V
  drop_where test [] = []
  drop_where test ((j, v) ∷ m) =
      let rest = drop_where test m in if test j then rest else (j, v) ∷ rest

  pub get-drop_where :
      (test : K → Bool) (k : K) (m : HashMap K V)
      → get k (drop_where test m) ≡ (if test k then none else get k m)
  unfolding get drop_where
  get-drop_where test k [] = ground arith
  get-drop_where test k ((j, v) ∷ m) = ground (arith, get-drop_where test k m, e.beq_iff j k)
