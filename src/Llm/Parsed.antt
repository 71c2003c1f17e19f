-- ===== src/Llm/Parsed.antt =====
-- What the projector of crates/mirrorlane-llm/src/lib.rs lets a model decide.
use mirrorlane.Base.{◌≡◌, refl, false, String, Option, none, some, arith}
use mirrorlane.Base.Float.{Float}
use mirrorlane.Core.Message.{MessageId, MessageEnvelope}
use mirrorlane.Core.Projection.{Projection, new_confidence_bounds}
use mirrorlane.Llm.{
  ProjectionDto, LlmProjector, attach, parse_projection, projection_prompt, run_llm,
}

module _ {R : Type 0} ⦃f : Float R⦄ where
  attach-keeps :
      (id : MessageId) (o : Option (ProjectionDto R)) (p : Projection R)
      → attach id o ≡ some p
      → (p.message_id ≡ id)
        × (f.lt p.confidence.value f.zero ≡ false)
        × (f.lt f.one p.confidence.value ≡ false)
  attach-keeps id none p h = absurd (cc)
  attach-keeps id (some dto) p h =
      let (low, high) = new_confidence_bounds dto.confidence in
      (ground arith, ground (arith, low), ground (arith, high))

module _ {R World : Type 0} ⦃f : Float R⦄ (from_json : String → Option (ProjectionDto R)) where
  -- Whatever the model answers, a projection that comes of it has the id of its message and a confidence
  -- within 0 and 1; and an answer that is not the documented JSON yields no projection.
  pub run_llm-keeps :
      (llm : LlmProjector World) (m : MessageEnvelope) (w w' : World) (response : String)
      → llm.client.complete_json llm.model (projection_prompt m.body) w ≡ (some response, w')
      → ((p : Projection R)
          → (run_llm from_json llm m w).0 ≡ some p
          → (p.message_id ≡ m.id)
            × (f.lt p.confidence.value f.zero ≡ false)
            × (f.lt f.one p.confidence.value ≡ false))
        × (from_json response ≡ none → run_llm from_json llm m w ≡ (none, w'))
  unfolding run_llm parse_projection
  run_llm-keeps llm m w w' response e =
      (λ p h. attach-keeps m.id (from_json response) p (rw e at h), λ h. rw (e, h) refl)
