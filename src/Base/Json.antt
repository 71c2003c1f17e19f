-- ===== src/Base/Json.antt =====
-- A `serde_json::Value` as `json!` builds it; a list of fields keeps the order in which they are
-- written. Printing it is serde_json's.
use mirrorlane.Base.{ℕ, String, Bool, List, [], ◌∷◌}

mutual
  pub data Json : Type 0 where
    text_value : String → Json
    number_value : ℕ → Json
    bool_value : Bool → Json
    array_value : Values → Json
    object_value : Fields → Json

  pub data Values : Type 0 where
    no_values : Values
    value : Json → Values → Values

  pub data Fields : Type 0 where
    no_fields : Fields
    field : String → Json → Fields → Fields

-- A `Vec` as an array
abbrev pub array_of {ℓ} : {A : Type ℓ} → (A → Json) → List A → Values
array_of f [] = no_values
array_of f (x ∷ xs) = value (f x) (array_of f xs)
