-- ===== src/Base/Result.antt =====
-- `Result<T, E>` with its `?`, as `do` blocks, and what a command prints beside its result.
use mirrorlane.Base.{
  Bool, true, false, String, Option, none, some, List, ◌++◌, ◌≡◌, refl, ◌⊎◌, inl, inr,
}

pub data Result {ℓ κ} (E : Type ℓ) (A : Type κ) : Type (ℓ ⊔ κ) where
  ok : A → Result E A
  err : E → Result E A

-- What `?` and the rest of a function do with a result
infixl 5 ◌>>=◌
abbrev pub ◌>>=◌ {ℓ κ μ} :
    {Error : Type ℓ} {Value : Type κ} {Next : Type μ}
    → Result Error Value
    → (Value → Result Error Next)
    → Result Error Next
err problem >>= rest = err problem
ok value >>= rest = rest value

-- `map_err`
abbrev pub map_err {ℓ κ μ} :
    {E : Type ℓ} {F : Type κ} {A : Type μ} → (E → F) → Result E A → Result F A
map_err f (ok a) = ok a
map_err f (err e) = err (f e)

-- `map` of a result
abbrev pub map_ok {ℓ κ μ} :
    {E : Type ℓ} {A : Type κ} {B : Type μ} → (A → B) → Result E A → Result E B
map_ok f (ok a) = ok (f a)
map_ok f (err e) = err e

-- `Option::ok_or`
abbrev pub ok_or {ℓ κ} : {E : Type ℓ} {A : Type κ} → E → Option A → Result E A
ok_or e none = err e
ok_or e (some a) = ok a

-- `Option::or`
abbrev pub or {ℓ} : {A : Type ℓ} → Option A → Option A → Option A
or (some a) o = some a
or none o = o

-- Of a `?` that succeeds, both parts succeed.
pub >>=-ok {ℓ κ μ} :
    {Error : Type ℓ} {Value : Type κ} {Next : Type μ} (r : Result Error Value)
    (rest : Value → Result Error Next) {next : Next}
    → (r >>= rest) ≡ ok next
    → (value : Value) × (r ≡ ok value) × (rest value ≡ ok next)
>>=-ok (err problem) rest both = cc
>>=-ok (ok value) rest both = (value, refl, both)

pub ok-inj {ℓ κ} : {E : Type ℓ} {A : Type κ} {a b : A} → ◌≡◌ {A = Result E A} (ok a) (ok b) → a ≡ b
ok-inj h = cc

pub some-inj {ℓ} : {A : Type ℓ} {a b : A} → some a ≡ some b → a ≡ b
some-inj h = cc

-- `is_ok`
abbrev pub is_ok {ℓ κ} : {E : Type ℓ} {A : Type κ} → Result E A → Bool
is_ok (ok a) = true
is_ok (err e) = false

pub ok_of-is_ok {ℓ κ} :
    {E : Type ℓ} {A : Type κ} (r : Result E A) → is_ok r ≡ true → (a : A) × (r ≡ ok a)
ok_of-is_ok (ok a) h = (a, refl)
ok_of-is_ok (err e) h = absurd (cc)

-- To split on a result and keep the equation
pub Result-cases {ℓ κ} :
    {E : Type ℓ} {A : Type κ} (r : Result E A) → ((a : A) × (r ≡ ok a)) ⊎ ((e : E) × (r ≡ err e))
Result-cases (ok a) = inl (a, refl)
Result-cases (err e) = inr (e, refl)

-- What was printed, a text for each `println!` or `eprintln!`, and the result
abbrev pub Printed {ℓ} : Type ℓ → Type ℓ
Printed A = List String × A

-- `?` where something may have been printed
abbrev pub then_print {ℓ κ} :
    {A : Type ℓ} {B : Type κ}
    → Printed (Result String A)
    → (A → Printed (Result String B))
    → Printed (Result String B)
then_print (lines, err e) f = (lines, err e)
then_print (lines, ok a) f = (lines ++ (f a).0, (f a).1)
