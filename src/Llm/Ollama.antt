-- ===== src/Llm/Ollama.antt =====
-- crates/mirrorlane-ollama/src/lib.rs: the transport to an Ollama server. Parameters: ureq (`Http`),
-- serde_json's printing of a value and its reading of a `GenerateResponse`, `none` where it refuses. A
-- panic is `none`.
use mirrorlane.Base.{String, ◌<>◌, false, Option, none, some, [], ◌∷◌}
use mirrorlane.Base.Http.{Http}
use mirrorlane.Base.Json.{Json, text_value, bool_value, object_value, field, no_fields}
use mirrorlane.Llm.{LlmClient}
use mirrorlane.Llm.Openai.{body_or_panic, and_parse}

abbrev pub default_base_url : String
default_base_url = "http://localhost:11434"

abbrev pub default_model : String
default_model = "qwen2.5:3b-instruct"

-- `OllamaClient`; a client is what `new` makes of a URL.
pub record OllamaClient : Type 0 where
  pub base_url : String

pub record GenerateResponse : Type 0 where
  pub response : String

-- The request body of `complete_json`
unfoldable pub generate_request : String → String → Json
generate_request model prompt = object_value (
    field "model" (text_value model) (
      field "prompt" (text_value prompt)
        (field "format" (text_value "json") (field "stream" (bool_value false) no_fields))))

abbrev pub response_of : Option GenerateResponse → Option String
response_of none = none
response_of (some envelope) = some envelope.response

module _ {World : Type 0} (http : Http World) (print : Json → String)
    (from_json : String → Option GenerateResponse) where
  -- `complete_json` of `OllamaClient`
  unfoldable pub complete_json : OllamaClient → String → String → World → Option String × World
  unfolding generate_request
  complete_json client model prompt w =
      let (reply, w') =
        http
          (record {
            url = client.base_url <> "/api/generate";
            headers = ("Content-Type", "application/json") ∷ [];
            body = some (print (generate_request model prompt));
          })
          w in
      (and_parse (λ body. response_of (from_json body)) (body_or_panic reply), w')

  -- `OllamaClient` as the trait `LlmClient`
  abbrev pub ollama_client : OllamaClient → LlmClient World
  ollama_client client = record { complete_json = complete_json client; provider_tag = "ollama" }
