-- ===== src/Base/Decimal.antt =====
-- `{}` of an unsigned number: its decimal digits. A number below its fuel is printed whole, since each
-- round divides by ten.
pub mod Plain
use Prim.Native.Nat.{ℕ, zero, suc, ◌/◌, ◌%◌, compare, Ordering}
use mirrorlane.Base.{String, ◌<>◌, ◌≡◌, refl}

abbrev pub digit : ℕ → String
digit zero = "0"
digit (suc zero) = "1"
digit (suc (suc zero)) = "2"
digit (suc (suc (suc zero))) = "3"
digit (suc (suc (suc (suc zero)))) = "4"
digit (suc (suc (suc (suc (suc zero))))) = "5"
digit (suc (suc (suc (suc (suc (suc zero)))))) = "6"
digit (suc (suc (suc (suc (suc (suc (suc zero))))))) = "7"
digit (suc (suc (suc (suc (suc (suc (suc (suc zero)))))))) = "8"
digit _ = "9"

unfoldable pub digits : ℕ → ℕ → String
digits zero n = ""
digits (suc fuel) n = elim (compare n 10) [
  | Ordering.lt ↦ digit n
  | _ ↦ digits fuel (n / 10) <> digit (n % 10)
]

unfoldable pub show_ℕ : ℕ → String
unfolding digits
show_ℕ n = digits (suc n) n

show_ℕ_sample : show_ℕ 4096 ≡ "4096"
unfolding show_ℕ
show_ℕ_sample = refl
