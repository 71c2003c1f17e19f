-- ===== src/Base/Float.antt =====
-- `f64`, which antt does not have: an interface over a carrier `R` with the operations that the
-- program calls and the facts of IEEE 754 that its results rest on. A comparison with a NaN is
-- false, so `lt` is transitive and irreflexive everywhere, and linear off the NaNs.
use mirrorlane.Base.{ℕ, ◌≡◌, ◌⊎◌, Bool, true, false, String, if◌then◌else◌, arith}

pub record Float (R : Type 0) : Type 0 where
  pub zero : R
  pub one : R
  pub tenths : ℕ → R
  pub of_ℕ : ℕ → R
  pub add : R → R → R
  pub mul : R → R → R
  pub div : R → R → R
  pub lt : R → R → Bool
  pub is_nan : R → Bool
  -- `{:.2}`
  pub show_2 : R → String
  pub lt_irrefl : (a : R) → lt a a ≡ false
  pub lt_trans : (a b c : R) → lt a b ≡ true → lt b c ≡ true → lt a c ≡ true
  pub lt_linear :
      (a b c : R)
      → is_nan a ≡ false
      → is_nan b ≡ false
      → is_nan c ≡ false
      → lt a c ≡ true
      → (lt a b ≡ true) ⊎ (lt b c ≡ true)
  pub zero-lt-one : lt zero one ≡ true

module _ {R : Type 0} ⦃f : Float R⦄ where
  -- `f64::clamp`: a NaN fails both tests and stays.
  abbrev pub clamp : R → R → R → R
  clamp x lo hi = if f.lt x lo then lo else if f.lt hi x then hi else x

  -- `f64::max`: of a NaN and another value, the other.
  abbrev pub max : R → R → R
  max a b = if f.lt a b then b else if f.is_nan a then b else a

  pub lt_asymm : (a b : R) → f.lt a b ≡ true → f.lt b a ≡ false
  lt_asymm a b h = ground (arith, f.lt_irrefl a, f.lt_trans a b a)
