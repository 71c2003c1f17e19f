-- ===== src/Base/Http.antt =====
-- The crate ureq, which is a parameter: a call acts on a `World`. `ureq::get` has no body and
-- `ureq::post` has one; headers stand in the order in which they were set.
use mirrorlane.Base.{ℕ, String, Option, List}

pub record HttpRequest : Type 0 where
  pub url : String
  pub headers : List (String × String)
  pub body : Option String

-- A call with `into_string` of its response: `Error::Transport`, `Error::Status` with the code and
-- the text of the status, a body that cannot be read, or the body.
pub data Reply : Type 0 where
  transport : String → Reply
  status : ℕ → String → Reply
  unreadable : String → Reply
  answered : String → Reply

abbrev pub Http : Type 0 → Type 0
Http World = HttpRequest → World → Reply × World
