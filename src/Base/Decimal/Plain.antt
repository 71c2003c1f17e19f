-- ===== src/Base/Decimal/Plain.antt =====
-- What the digits of a number are free of.
use Prim.Native.Char.{Char}
use Prim.Native.String.append as append
use Prim.Native.Nat.{◌/◌, ◌%◌}
use mirrorlane.Base.{ℕ, zero, suc, String, ◌<>◌, ◌≡◌, refl, false, arith}
use mirrorlane.Base.Decimal.{digit, digits, show_ℕ}
use mirrorlane.Base.Split.{has_char}

has_char-append :
    (c : Char) (s t : String)
    → has_char c s ≡ false
    → has_char c t ≡ false
    → has_char c (s <> t) ≡ false
unfolding has_char
has_char-append c String.[] t h k = rw (append.nil t) k
has_char-append c (String.◌∷◌ d s) t h k =
    rw (append.cons d s t) (ground (arith, has_char-append c s t))

abbrev slash : Char
slash = "/"

digit-plain : (n : ℕ) → has_char slash (digit n) ≡ false
unfolding has_char
digit-plain zero = refl
digit-plain (suc zero) = refl
digit-plain (suc (suc zero)) = refl
digit-plain (suc (suc (suc zero))) = refl
digit-plain (suc (suc (suc (suc zero)))) = refl
digit-plain (suc (suc (suc (suc (suc zero))))) = refl
digit-plain (suc (suc (suc (suc (suc (suc zero)))))) = refl
digit-plain (suc (suc (suc (suc (suc (suc (suc zero))))))) = refl
digit-plain (suc (suc (suc (suc (suc (suc (suc (suc zero)))))))) = refl
digit-plain (suc (suc (suc (suc (suc (suc (suc (suc (suc zero))))))))) = refl
digit-plain (suc (suc (suc (suc (suc (suc (suc (suc (suc (suc n)))))))))) = refl

digits-plain : (fuel n : ℕ) → has_char slash (digits fuel n) ≡ false
unfolding digits
digits-plain zero n = unfold has_char in refl
digits-plain (suc fuel) n = ground (
  arith,
  digit-plain n,
  has_char-append slash (digits fuel (n / 10)) (digit (n % 10)) (digits-plain fuel (n / 10))
      (digit-plain (n % 10)),
)

pub show_ℕ-plain : (n : ℕ) → has_char slash (show_ℕ n) ≡ false
unfolding show_ℕ
show_ℕ-plain n = digits-plain (suc n) n
