-- ===== src/Base/Sort.antt =====
-- `slice::sort_by`: stable, so equal elements keep their order. `before a b` says that the comparison of
-- `a` with `b` is `Less`. On a total order every stable sort returns the same list.
use mathlib.Core.List.{Perm}
use mathlib.Core.List.Perm
use mirrorlane.Base.{
  ◌≡◌, Bool, true, false, List, [], ◌∷◌, arith, if◌then◌else◌, Bool-cases, ◌⊎◌, inl, inr,
}
use mirrorlane.Base.Lists.{In, here, there}

module _ {ℓ} {A : Type ℓ} (before : A → A → Bool) where
  -- `x` stands in front of its equals, which came after it.
  unfoldable pub insert_by : A → List A → List A
  insert_by x [] = x ∷ []
  insert_by x (y ∷ ys) = let rest = insert_by x ys in if before y x then y ∷ rest else x ∷ y ∷ ys

  unfoldable pub sort_by : List A → List A
  unfolding insert_by
  sort_by [] = []
  sort_by (x ∷ xs) = insert_by x (sort_by xs)

  -- No element is less than the one in front of it.
  abbrev pub IsSorted : List A → Type 0
  IsSorted [] = Unit
  IsSorted (x ∷ []) = Unit
  IsSorted (x ∷ y ∷ ys) = (before y x ≡ false) × IsSorted (y ∷ ys)

  insert_by-IsSorted :
      ((a b : A) → before a b ≡ true → before b a ≡ false)
      → (x : A) (ys : List A) → IsSorted ys
      → IsSorted (insert_by x ys)
  unfolding insert_by
  insert_by-IsSorted asymm x [] s = tt
  insert_by-IsSorted asymm x (y ∷ []) s = ground (arith, asymm y x)
  insert_by-IsSorted asymm x (y ∷ z ∷ zs) s =
      ground (arith, asymm y x, insert_by-IsSorted asymm x (z ∷ zs) s.1)

  -- Of a comparison that does not hold both ways, the sort leaves no inversion of neighbours.
  pub sort_by-IsSorted :
      ((a b : A) → before a b ≡ true → before b a ≡ false) → (xs : List A) → IsSorted (sort_by xs)
  unfolding sort_by
  sort_by-IsSorted asymm [] = tt
  sort_by-IsSorted asymm (x ∷ xs) =
      insert_by-IsSorted asymm x (sort_by xs) (sort_by-IsSorted asymm xs)

  In-insert_by : (x a : A) (ys : List A) → In a (insert_by x ys) → (a ≡ x) ⊎ In a ys
  unfolding insert_by
  In-insert_by x a [] (here e) = inl e
  In-insert_by x a [] (there i) = elim i [ ]
  In-insert_by x a (y ∷ ys) i = elim (Bool-cases (before y x)) [
    | inl b ↦ elim (rw (b, insert_by) at i) [
      | here e ↦ inr (here e)
      | there j ↦ elim (In-insert_by x a ys j) [ inl e ↦ inl e | inr k ↦ inr (there k) ]
    ]
    | inr b ↦ elim (rw (b, insert_by) at i) [ here e ↦ inl e | there j ↦ inr j ]
  ]

  -- The sort makes nothing up.
  pub In-sort_by : (a : A) (xs : List A) → In a (sort_by xs) → In a xs
  unfolding sort_by
  In-sort_by a [] i = i
  In-sort_by a (x ∷ xs) i = elim (In-insert_by x a (sort_by xs) i) [
    | inl e ↦ here e
    | inr j ↦ there (In-sort_by a xs j)
  ]

  insert_by-Perm : (x : A) (ys : List A) → Perm (insert_by x ys) (x ∷ ys)
  unfolding insert_by
  insert_by-Perm x [] = Perm.rfl
  insert_by-Perm x (y ∷ ys) = elim (Bool-cases (before y x)) [
    | inl b ↦ rw (b, insert_by) (Perm.trans (Perm.cons y (insert_by-Perm x ys)) (Perm.swap x y ys))
    | inr b ↦ rw (b, insert_by) Perm.rfl
  ]

  -- The sort rearranges: nothing is lost or doubled.
  pub sort_by-Perm : (xs : List A) → Perm (sort_by xs) xs
  unfolding sort_by
  sort_by-Perm [] = Perm.rfl
  sort_by-Perm (x ∷ xs) = Perm.trans (insert_by-Perm x (sort_by xs)) (Perm.cons x (sort_by-Perm xs))

  insert_by-In : (x a : A) (ys : List A) → (a ≡ x) ⊎ In a ys → In a (insert_by x ys)
  unfolding insert_by
  insert_by-In x a [] (inl e) = here e
  insert_by-In x a [] (inr i) = elim i [ ]
  insert_by-In x a (y ∷ ys) i = elim (Bool-cases (before y x)) [
    | inr b ↦ rw (b, insert_by) (elim i [ inl e ↦ here e | inr j ↦ there j ])
    | inl b ↦
        rw (b, insert_by)
          (elim i [
            | inl e ↦ there (insert_by-In x a ys (inl e))
            | inr j ↦ elim j [ here e ↦ here e | there k ↦ there (insert_by-In x a ys (inr k)) ]
          ])
  ]

  pub sort_by-In : (a : A) (xs : List A) → In a xs → In a (sort_by xs)
  unfolding sort_by
  sort_by-In a [] i = i
  sort_by-In a (x ∷ xs) (here e) = insert_by-In x a (sort_by xs) (inl e)
  sort_by-In a (x ∷ xs) (there i) = insert_by-In x a (sort_by xs) (inr (sort_by-In a xs i))
