-- ===== src/Llm.antt =====
-- crates/mirrorlane-llm/src/lib.rs: the projector over a language model. The model's transport
-- (`LlmClient::complete_json`) acts on a `World` and may panic, which is `none`; `from_json` is
-- serde_json's reading of a `ProjectionDto`, `none` where it refuses; `digest` is the standard hasher
-- of a text, printed.
pub mod Parsed
pub mod Openai
pub mod Ollama
use mirrorlane.Base.{String, ◌<>◌, Option, none, some, List}
use mirrorlane.Base.Float.{Float}
use mirrorlane.Core.Message.{MessageId, MessageEnvelope}
use mirrorlane.Core.Projection.{Intent, Projection, new_confidence}
use mirrorlane.Runtime.Step.{Step}

abbrev pub default_prompt_version : String
default_prompt_version = "v2"

abbrev pub parser_version : String
parser_version = "1"

pub record LlmClient (World : Type 0) : Type 0 where
  pub complete_json : String → String → World → Option String × World
  pub provider_tag : String

unfoldable pub version_tag : String → String → String → String
version_tag provider model prompt_version = provider <> (":" <> (model <> (":" <> prompt_version)))

unfoldable pub projection_prompt : String → String
projection_prompt body =
    "You classify a team chat message into structured JSON.\n"
    <> ("Respond with ONLY a JSON object with EXACTLY these four REQUIRED fields (never omit any):\n"
        <> ("- \"intent\": one of \"question\", \"decision\", \"proposal\", \"task\", \"issue\", \"social\"\n"
            <> ("- \"topics\": array of short lowercase strings (e.g. \"rust\", \"auth\")\n"
                <> ("- \"entities\": array of short plain strings naming concrete things (e.g. \"refresh-token\"); NOT objects\n"
                    <> ("- \"confidence\": a number from 0.0 to 1.0 — ALWAYS include this field\n"
                        <> ("All four fields are mandatory. \"topics\" and \"entities\" are arrays of strings only; do not nest or rename fields.\n"
                            <> ("Message:\n" <> body)))))))

unfoldable pub prompt_fingerprint : (String → String) → String
prompt_fingerprint digest = digest (projection_prompt "" <> ("\n" <> parser_version))

pub record ProjectionDto (R : Type 0) : Type 0 where
  pub intent : Intent
  pub topics : List String
  pub entities : List String
  pub confidence : R

module _ {R : Type 0} ⦃f : Float R⦄ where
  abbrev pub attach : MessageId → Option (ProjectionDto R) → Option (Projection R)
  attach id none = none
  attach id (some dto) = some (record {
    message_id = id;
    intent = dto.intent;
    topics = dto.topics;
    entities = dto.entities;
    confidence = new_confidence dto.confidence;
  })

  unfoldable pub parse_projection :
      (String → Option (ProjectionDto R)) → String → MessageId → Option (Projection R)
  parse_projection from_json response_body id = attach id (from_json response_body)

pub record LlmProjector (World : Type 0) : Type 0 where
  pub client : LlmClient World
  pub model : String
  pub prompt_version : String

unfoldable pub cache_version : {World : Type 0} → (String → String) → LlmProjector World → String
cache_version digest p =
    version_tag p.client.provider_tag p.model p.prompt_version <> (":" <> prompt_fingerprint digest)

module _ {R World : Type 0} ⦃f : Float R⦄ (from_json : String → Option (ProjectionDto R)) where
  -- The response is parsed, unless the transport panicked.
  abbrev pub parse_response : MessageId → Option String × World → Option (Projection R) × World
  parse_response id (none, w) = (none, w)
  parse_response id (some response, w) = (parse_projection from_json response id, w)

  -- `Step::run` of `LlmProjector`
  unfoldable pub run_llm :
      LlmProjector World → MessageEnvelope → World → Option (Projection R) × World
  unfolding projection_prompt parse_projection
  run_llm p message w =
      parse_response message.id (p.client.complete_json p.model (projection_prompt message.body) w)

  abbrev pub llm_step :
      (String → String) → LlmProjector World → Step MessageEnvelope (Projection R) World
  llm_step digest p = record {
    kind = "mirrorlane.projection.llm";
    version = cache_version digest p;
    run = run_llm p;
  }
