-- ===== src/Core/Projection.antt =====
-- crates/mirrorlane-core/src/projection.rs, over a type `R` of floating-point numbers.
use mirrorlane.Base.{◌≡◌, ◌↔◌, Bool, true, false, String, List, arith, Eq}
use mirrorlane.Base.Float.{Float, clamp}
use mirrorlane.Core.Message.{MessageId}

pub data Intent : Type 0 where
  question decision proposal task issue social : Intent

abbrev pub intent_beq : Intent → Intent → Bool
intent_beq question question = true
intent_beq decision decision = true
intent_beq proposal proposal = true
intent_beq task task = true
intent_beq issue issue = true
intent_beq social social = true
intent_beq _ _ = false

pub intent_beq_iff : (a b : Intent) → (intent_beq a b ≡ true) ↔ (a ≡ b)
intent_beq_iff a b = ground arith

instance abbrev pub intent_eq : Eq Intent
intent_eq = record { beq = intent_beq; beq_iff = intent_beq_iff }

abbrev pub Topic : Type 0
Topic = String

abbrev pub Entity : Type 0
Entity = String

-- The field is private in the source: `Confidence::new` is the one way in.
pub record Confidence (R : Type 0) : Type 0 where
  pub value : R

pub record Projection (R : Type 0) : Type 0 where
  pub message_id : MessageId
  pub intent : Intent
  pub topics : List Topic
  pub entities : List Entity
  pub confidence : Confidence R

module _ {R : Type 0} ⦃f : Float R⦄ where
  -- `Confidence::new`, and so `From<f64>`, which deserialising goes through.
  unfoldable pub new_confidence : R → Confidence R
  new_confidence value = record { value = clamp value f.zero f.one }

  -- A confidence is never below 0 nor above 1, whatever number it is made of.
  pub new_confidence_bounds :
      (value : R)
      → (f.lt (new_confidence value).value f.zero ≡ false)
        × (f.lt f.one (new_confidence value).value ≡ false)
  unfolding new_confidence
  new_confidence_bounds value = ground (
    arith,
    f.lt_irrefl f.zero,
    f.lt_irrefl f.one,
    f.zero-lt-one,
    f.lt_trans f.one f.zero f.one,
    f.lt_trans f.zero f.one f.zero,
  )
