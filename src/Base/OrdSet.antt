-- ===== src/Base/OrdSet.antt =====
-- `BTreeSet<String>`: the elements in ascending order.
use Prim.Native.Nat.{Ordering}
use Prim.Native.String.{compare}
use text.Mathlib.TextEquality.{eq_iff, path_by_compare}
use mirrorlane.Base.{◌≡◌, refl, true, ◌||◌, String, List, [], ◌∷◌, arith, ◌==◌, string_eq}
use mirrorlane.Base.Lists.{contains}
use mirrorlane.Base.Text.{str_lt, compare-flip, str_lt_trans}

unfoldable pub insert : String → List String → List String
insert k [] = k ∷ []
insert k (j ∷ s) = elim (compare k j) [
  | Ordering.lt ↦ k ∷ j ∷ s
  | Ordering.eq ↦ k ∷ s
  | Ordering.gt ↦ j ∷ insert k s
]

-- Every element is above `k`.
abbrev pub Above : String → List String → Type 0
Above k [] = Unit
Above k (j ∷ s) = (str_lt k j ≡ true) × Above k s

-- Strictly ascending
abbrev pub IsAscending : List String → Type 0
IsAscending [] = Unit
IsAscending (k ∷ s) = Above k s × IsAscending s

pub contains-insert :
    (k j : String) (s : List String) → contains j (insert k s) ≡ (k == j || contains j s)
unfolding insert
contains-insert k j [] = refl
contains-insert k j (i ∷ s) = ground (arith, eq_iff k j, path_by_compare k i, contains-insert k j s)

Above-trans : (k j : String) (s : List String) → str_lt k j ≡ true → Above j s → Above k s
Above-trans k j [] h a = tt
Above-trans k j (i ∷ s) h (b, a) = (str_lt_trans k j i h b, Above-trans k j s h a)

Above-insert :
    (i k : String) (s : List String) → str_lt i k ≡ true → Above i s → Above i (insert k s)
unfolding insert
Above-insert i k [] h a = (h, tt)
Above-insert i k (j ∷ s) h (b, a) = ground (arith, Above-insert i k s h a)

pub insert-IsAscending : (k : String) (s : List String) → IsAscending s → IsAscending (insert k s)
unfolding insert
insert-IsAscending k [] h = (tt, tt)
insert-IsAscending k (j ∷ s) (a, u) = ground (
  arith,
  insert-IsAscending k s u,
  Above-insert j k s,
  Above-trans k j s,
  compare-flip k j,
  path_by_compare k j,
)
