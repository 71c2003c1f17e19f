-- ===== src/Llm/Openai.antt =====
-- crates/mirrorlane-openai/src/lib.rs: the transport to a chat-completions endpoint. Parameters: ureq
-- (`Http`), serde_json's printing of a value and its reading of a `ChatResponse`, `none` where it
-- refuses. A panic is `none`.
use mirrorlane.Base.{String, ◌<>◌, Option, none, some, List, [], ◌∷◌, ◌++◌}
use mirrorlane.Base.Http.{Reply, transport, status, unreadable, answered, Http}
use mirrorlane.Base.Json.{
  Json, text_value, array_value, object_value, value, no_values, field, no_fields,
}
use mirrorlane.Llm.{LlmClient}

abbrev pub default_base_url : String
default_base_url = "https://api.openai.com/v1"

abbrev pub default_model : String
default_model = "gpt-4o-mini"

-- `OpenAiClient`; a client is what `new` makes of the two.
pub record OpenAiClient : Type 0 where
  pub base_url : String
  pub api_key : Option String

pub record ChatMessage : Type 0 where
  pub content : String

pub record Choice : Type 0 where
  pub message : ChatMessage

pub record ChatResponse : Type 0 where
  pub choices : List Choice

abbrev pub first_content : Option ChatResponse → Option String
first_content none = none
first_content (some parsed) = elim (parsed.choices) [
  | [] ↦ none
  | ◌∷◌ c cs ↦ some c.message.content
]

unfoldable pub parse_content : (String → Option ChatResponse) → String → Option String
parse_content from_json body = first_content (from_json body)

-- The request body of `complete_json`
unfoldable pub chat_request : String → String → Json
chat_request model prompt = object_value (
    field "model" (text_value model) (
      field "messages"
        (array_value (
          value
            (object_value
              (field "role" (text_value "user") (field "content" (text_value prompt) no_fields)))
            no_values))
        (field "response_format" (object_value (field "type" (text_value "json_object") no_fields))
          no_fields)))

-- The key as a `Bearer` token, where there is one
abbrev pub bearer : Option String → List (String × String)
bearer none = []
bearer (some key) = ("Authorization", "Bearer " <> key) ∷ []

-- The body of a reply; every other reply panics.
abbrev pub body_or_panic : Reply → Option String
body_or_panic (answered body) = some body
body_or_panic (transport e) = none
body_or_panic (status code message) = none
body_or_panic (unreadable e) = none

abbrev pub and_parse : (String → Option String) → Option String → Option String
and_parse parse none = none
and_parse parse (some body) = parse body

module _ {World : Type 0} (http : Http World) (print : Json → String)
    (from_json : String → Option ChatResponse) where
  -- `complete_json` of `OpenAiClient`
  unfoldable pub complete_json : OpenAiClient → String → String → World → Option String × World
  unfolding parse_content chat_request
  complete_json client model prompt w =
      let (reply, w') =
        http
          (record {
            url = client.base_url <> "/chat/completions";
            headers = ("Content-Type", "application/json") ∷ [] ++ bearer client.api_key;
            body = some (print (chat_request model prompt));
          })
          w in
      (and_parse (parse_content from_json) (body_or_panic reply), w')

  -- `OpenAiClient` as the trait `LlmClient`
  abbrev pub openai_client : OpenAiClient → LlmClient World
  openai_client client = record { complete_json = complete_json client; provider_tag = "openai" }
