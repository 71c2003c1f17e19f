-- ===== src/Base/Text.antt =====
-- `str`: the order (`cmp`, by bytes, which on UTF-8 is by characters), `contains` and `join`.
use Prim.Native.Nat.{compare as compare_ℕ, Ordering}
use Prim.Native.Char.{code}
use Prim.Native.String.{compare, find, len, then}
use Prim.Native.String.compare
use text.Mathlib.TextEquality.{path_by_compare}
use text.Mathlib.TextPositions.{compare_refl}
use mirrorlane.Base.{ℕ, ◌≡◌, Bool, true, false, String, ◌<>◌, List, [], ◌∷◌, arith, string_eq}

-- `a < b`
abbrev pub str_lt : String → String → Bool
str_lt s t = elim (compare s t) [ Ordering.lt ↦ true | _ ↦ false ]

-- `s.contains(t)`: `find` answers past the end where there is none.
unfoldable pub str_contains : String → String → Bool
str_contains s t = elim (compare_ℕ (find s t) (len s)) [ Ordering.gt ↦ false | _ ↦ true ]

-- `names.join(sep)`
unfoldable pub join : String → List String → String
join sep [] = ""
join sep (s ∷ []) = s
join sep (s ∷ t ∷ ss) = s <> (sep <> join sep (t ∷ ss))

abbrev pub flip : Ordering → Ordering
flip Ordering.lt = Ordering.gt
flip Ordering.eq = Ordering.eq
flip Ordering.gt = Ordering.lt

then-flip :
    (m n : ℕ) (r q : Ordering) → q ≡ flip r → then (compare_ℕ n m) q ≡ flip (then (compare_ℕ m n) r)
then-flip m n r q h = ground arith

pub compare-flip : (s t : String) → compare t s ≡ flip (compare s t)
compare-flip String.[] String.[] = rw compare.nil-nil
compare-flip String.[] (String.◌∷◌ d t) = rw (compare.nil-cons, compare.cons-nil)
compare-flip (String.◌∷◌ c s) String.[] = rw (compare.nil-cons, compare.cons-nil)
compare-flip (String.◌∷◌ c s) (String.◌∷◌ d t) =
    rw (compare.cons-cons d c t s, compare.cons-cons c d s t)
      (then-flip (code c) (code d) (compare s t) (compare t s) (compare-flip s t))

then-lt_trans :
    (l m n : ℕ) (p q r : Ordering)
    → (p ≡ Ordering.lt → q ≡ Ordering.lt → r ≡ Ordering.lt)
    → then (compare_ℕ l m) p ≡ Ordering.lt
    → then (compare_ℕ m n) q ≡ Ordering.lt
    → then (compare_ℕ l n) r ≡ Ordering.lt
then-lt_trans l m n p q r step h k = ground arith

pub compare-lt_trans :
    (s t u : String)
    → compare s t ≡ Ordering.lt
    → compare t u ≡ Ordering.lt
    → compare s u ≡ Ordering.lt
compare-lt_trans String.[] String.[] u h k = cc
compare-lt_trans String.[] (String.◌∷◌ d t) String.[] h k = cc (compare.cons-nil d t)
compare-lt_trans String.[] (String.◌∷◌ d t) (String.◌∷◌ e u) h k = rw compare.nil-cons
compare-lt_trans (String.◌∷◌ c s) String.[] u h k = cc (compare.cons-nil c s)
compare-lt_trans (String.◌∷◌ c s) (String.◌∷◌ d t) String.[] h k = cc (compare.cons-nil d t)
compare-lt_trans (String.◌∷◌ c s) (String.◌∷◌ d t) (String.◌∷◌ e u) h k =
    rw (compare.cons-cons c e s u) (
      then-lt_trans (code c) (code d) (code e) (compare s t) (compare t u) (compare s u)
        (compare-lt_trans s t u) (rw (compare.cons-cons c d s t) at h)
        (rw (compare.cons-cons d e t u) at k))

pub str_lt_irrefl : (s : String) → str_lt s s ≡ false
str_lt_irrefl s = ground (arith, compare_refl s)

pub str_lt_trans : (s t u : String) → str_lt s t ≡ true → str_lt t u ≡ true → str_lt s u ≡ true
str_lt_trans s t u h k = ground (arith, compare-lt_trans s t u)

pub str_lt_asymm : (s t : String) → str_lt s t ≡ true → str_lt t s ≡ false
str_lt_asymm s t h = ground (arith, compare-flip s t)

-- Of two texts that are not less, either way, each is the other.
pub str_lt_antisymm : (s t : String) → str_lt s t ≡ false → str_lt t s ≡ false → s ≡ t
str_lt_antisymm s t h k = path_by_compare s t (ground (arith, compare-flip s t))
