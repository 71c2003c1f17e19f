-- ===== src/Base/Lists.antt =====
-- List helpers of the standard library that several parts use.
use mirrorlane.Base.{
  ℕ, suc, ◌≡◌, refl, ap, sym, inl, inr, Bool, Bool-cases, true, false, ◌||◌, Option, none, some,
  List, [], ◌∷◌, ◌++◌, map, arith, Eq, ◌==◌, if◌then◌else◌,
}

-- Membership with its position kept.
pub data In {ℓ} {A : Type ℓ} (a : A) : List A → Type ℓ where
  here : {x : A} {xs : List A} → a ≡ x → In a (x ∷ xs)
  there : {x : A} {xs : List A} → In a xs → In a (x ∷ xs)

module _ {ℓ} {A : Type ℓ} where
  -- `len`
  abbrev pub length : List A → ℕ
  length [] = 0
  length (x ∷ xs) = suc (length xs)

  pub In-append_left : {a : A} {xs : List A} (ys : List A) → In a xs → In a (xs ++ ys)
  In-append_left ys (here e) = here e
  In-append_left ys (there h) = there (In-append_left ys h)

  pub In-append_right : {a : A} (xs : List A) {ys : List A} → In a ys → In a (xs ++ ys)
  In-append_right [] h = h
  In-append_right (x ∷ xs) h = there (In-append_right xs h)

  -- `iter().find`
  abbrev pub find : (A → Bool) → List A → Option A
  find p [] = none
  find p (x ∷ xs) = if p x then some x else find p xs

  -- `iter().filter`
  abbrev pub filter : (A → Bool) → List A → List A
  filter p [] = []
  filter p (x ∷ xs) = if p x then x ∷ filter p xs else filter p xs

abbrev pub push_some {ℓ} : {B : Type ℓ} → Option B → List B → List B
push_some none ys = ys
push_some (some y) ys = y ∷ ys

module _ {ℓ κ} {A : Type ℓ} {B : Type κ} where
  -- `iter().filter_map`
  abbrev pub filter_map : (A → Option B) → List A → List B
  filter_map f [] = []
  filter_map f (x ∷ xs) = push_some (f x) (filter_map f xs)

  -- A loop that carries a state: `for x in xs { ... }`.
  abbrev pub foldl : (B → A → B) → B → List A → B
  foldl f b [] = b
  foldl f b (x ∷ xs) = foldl f (f b x) xs

  pub In-map : (f : A → B) {a : A} {xs : List A} → In a xs → In (f a) (map f xs)
  In-map f (here e) = here (ap f e)
  In-map f (there h) = there (In-map f h)

  pub In-map_inv :
      (f : A → B) {b : B} (xs : List A) → In b (map f xs) → (a : A) × In a xs × (b ≡ f a)
  In-map_inv f [] h = elim h [ ]
  In-map_inv f (x ∷ xs) (here e) = (x, here refl, e)
  In-map_inv f (x ∷ xs) (there h) = let (a, i, e) = In-map_inv f xs h in (a, there i, e)

module _ {ℓ} {A : Type ℓ} ⦃e : Eq A⦄ where
  -- `contains`
  abbrev pub contains : A → List A → Bool
  contains a [] = false
  contains a (x ∷ xs) = x == a || contains a xs

  -- No element twice.
  abbrev pub Nodup : List A → Type 0
  Nodup [] = Unit
  Nodup (x ∷ xs) = (contains x xs ≡ false) × Nodup xs

  pub contains_of_In : {a : A} {xs : List A} → In a xs → contains a xs ≡ true
  contains_of_In {a} (here {x} {xs} h) = ground (arith, e.beq_iff x a)
  contains_of_In {a} (there {x} {xs} h) = ground (arith, contains_of_In h)

  pub In_of_contains : (a : A) (xs : List A) → contains a xs ≡ true → In a xs
  In_of_contains a [] h = absurd (cc)
  In_of_contains a (x ∷ xs) h = elim (Bool-cases (x == a)) [
    | inl p ↦ here (sym ((e.beq_iff x a).0 p))
    | inr q ↦ there (In_of_contains a xs (ground arith))
  ]

  pub contains-append :
      (a : A) (xs ys : List A) → contains a (xs ++ ys) ≡ (contains a xs || contains a ys)
  contains-append a [] ys = refl
  contains-append a (x ∷ xs) ys = ground (arith, contains-append a xs ys)

  pub Nodup-append_one :
      (a : A) (xs : List A) → Nodup xs → contains a xs ≡ false → Nodup (xs ++ a ∷ [])
  Nodup-append_one a [] u h = (refl, tt)
  Nodup-append_one a (x ∷ xs) (fresh, u) h = (
    rw (contains-append x xs (a ∷ [])) (ground (arith, e.beq_iff a x, e.beq_iff x a)),
    Nodup-append_one a xs u (ground arith),
  )
