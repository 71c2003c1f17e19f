-- ===== src/Base/Number.antt =====
-- Tests on ℕ.
use Prim.Native.Nat.{compare, Ordering}
use mirrorlane.Base.{ℕ, Bool, true, false, ◌≡◌, ◌<◌, ◌↔◌, arith, if◌then◌else◌}

abbrev pub ltb : ℕ → ℕ → Bool
ltb m n = elim (compare m n) [ Ordering.lt ↦ true | _ ↦ false ]

abbrev pub max_ℕ : ℕ → ℕ → ℕ
max_ℕ m n = if ltb m n then n else m

ltb_iff : (m n : ℕ) → (ltb m n ≡ true) ↔ (m < n)
ltb_iff m n = ground arith

-- `==`
abbrev pub eqb : ℕ → ℕ → Bool
eqb m n = elim (compare m n) [ Ordering.eq ↦ true | _ ↦ false ]

pub eqb_iff : (m n : ℕ) → (eqb m n ≡ true) ↔ (m ≡ n)
eqb_iff m n = ground arith
