-- ===== src/Base.antt =====
-- The names that every part shares: the libraries', passed on, and equality as a trait (`Eq`),
-- with the conditional. `HashMap`, `Lists` and the other children build on it.
pub mod Lists
pub mod Float
pub mod Text
pub mod OrdMap
pub mod OrdSet
pub mod Decimal
pub mod HashMap
pub mod Number
pub mod Sort
pub mod Result
pub mod Split
pub mod Http
pub mod Json
use text.Mathlib.Text.{◌==◌ as str_eq}
use text.Mathlib.TextEquality.{eq_iff}
pub use Prim.Native.Nat.{ℕ, zero, suc, ◌+◌, ◌-◌, ◌*◌, ◌/◌, ◌≤◌, ◌<◌}
pub use Prim.Native.String.{String, ◌++◌ as ◌<>◌}
pub use mathlib.Core.Path.{◌≡◌, refl, sym, ap, ◌∙◌, subst}
pub use mathlib.Core.Logic.{◌≢◌, ◌↔◌, ◌⊎◌, inl, inr}
pub use mathlib.Core.Bool.{Bool, true, false, not, ◌&&◌, ◌||◌}
pub use mathlib.Core.Option.{Option, none, some}
pub use mathlib.Core.List.{List, [], ◌∷◌, ◌++◌, map}
pub use native.Mathlib.Omega.{arith}

infix 1 if◌then◌else◌
abbrev pub if◌then◌else◌ {ℓ} : {A : Type ℓ} → Bool → A → A → A
if true then x else y = x
if false then x else y = y

-- `PartialEq` and `Eq` as they are derived: the test decides equality.
pub record Eq {ℓ} (T : Type ℓ) : Type ℓ where
  pub beq : T → T → Bool
  pub beq_iff : (s t : T) → (beq s t ≡ true) ↔ (s ≡ t)

-- `==`
infix 50 ◌==◌
abbrev pub ◌==◌ {κ} : {T : Type κ} ⦃e : Eq T⦄ → T → T → Bool
◌==◌ {T} ⦃e⦄ s t = e.beq s t

instance abbrev pub string_eq : Eq String
string_eq = record { beq = str_eq; beq_iff = eq_iff }

pub ==_refl {ℓ} : {A : Type ℓ} ⦃e : Eq A⦄ (a : A) → (a == a) ≡ true
==_refl ⦃e⦄ a = (e.beq_iff a a).1 refl

-- A key of three texts, as the caches use.
abbrev pub triple_beq : String × String × String → String × String × String → Bool
triple_beq (a, b, c) (x, y, z) = str_eq a x && str_eq b y && str_eq c z

pub triple_beq_iff : (s t : String × String × String) → (triple_beq s t ≡ true) ↔ (s ≡ t)
triple_beq_iff (a, b, c) (x, y, z) = ground (arith, eq_iff a x, eq_iff b y, eq_iff c z)

instance abbrev pub triple_eq : Eq (String × String × String)
triple_eq = record { beq = triple_beq; beq_iff = triple_beq_iff }

-- To split on a computed value and keep the equation.
pub Bool-cases : (b : Bool) → (b ≡ true) ⊎ (b ≡ false)
Bool-cases true = inl refl
Bool-cases false = inr refl

pub Option-cases {ℓ} : {A : Type ℓ} (o : Option A) → (o ≡ none) ⊎ ((a : A) × (o ≡ some a))
Option-cases none = inl refl
Option-cases (some a) = inr (a, refl)

-- `unwrap_or`
abbrev pub get_or {ℓ} : {A : Type ℓ} → Option A → A → A
get_or none d = d
get_or (some a) d = a
