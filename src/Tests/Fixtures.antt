-- ===== src/Tests/Fixtures.antt =====
-- Small concrete data: numbers in hundredths, messages, ports and a substrate that delivers twice.
use mirrorlane.Base.{
  ℕ, ◌+◌, ◌*◌, ◌/◌, ◌≡◌, refl, ◌⊎◌, inl, inr, true, false, String, ◌<>◌, none, List, [], ◌∷◌, ◌++◌,
  arith,
}
use mirrorlane.Base.Decimal.{show_ℕ}
use mirrorlane.Base.Float.{Float}
use mirrorlane.Base.Lists.{In, here, there, In-append_left}
use mirrorlane.Base.Number.{ltb}
use mirrorlane.Base.Text.{join}
use mirrorlane.Core.Derivation.{ConversationDerivation}
use mirrorlane.Core.Message.{MessageEnvelope, ConversationId, manual}
use mirrorlane.Core.Projection.{Projection, question, proposal, decision}
use mirrorlane.Core.Routing.{RoutingDecision, human}
use mirrorlane.Core.Skill.{TopicOwnership, SkillContribution}
use mirrorlane.Core.Warmup.{WarmupDocument}
use mirrorlane.Worker.Composition.{Substrate}
use mirrorlane.Worker.Replay.{ReplayStores}

pub ltb_irrefl : (a : ℕ) → ltb a a ≡ false
ltb_irrefl a = ground arith

pub ltb_trans : (a b c : ℕ) → ltb a b ≡ true → ltb b c ≡ true → ltb a c ≡ true
ltb_trans a b c h k = ground arith

pub ltb_linear : (a b c : ℕ) → ltb a c ≡ true → (ltb a b ≡ true) ⊎ (ltb b c ≡ true)
ltb_linear a b c h = ground arith

-- The hundredths of a number
instance abbrev pub hundredths : Float ℕ
hundredths = record {
  zero = 0;
  one = 100;
  tenths = λ n. 10 * n;
  of_ℕ = λ n. 100 * n;
  add = λ a b. a + b;
  mul = λ a b. (a * b) / 100;
  div = λ a b. (a * 100) / b;
  lt = ltb;
  is_nan = λ a. false;
  show_2 = show_ℕ;
  lt_irrefl = ltb_irrefl;
  lt_trans = ltb_trans;
  lt_linear = λ a b c p q r h. ltb_linear a b c h;
  zero-lt-one = refl;
}

pub In-append_inv : {A : Type 0} {a : A} (xs ys : List A) → In a (xs ++ ys) → In a xs ⊎ In a ys
In-append_inv [] ys i = inr i
In-append_inv (x ∷ xs) ys (here e) = inl (here e)
In-append_inv (x ∷ xs) ys (there i) = elim (In-append_inv xs ys i) [
  | inl j ↦ inl (there j)
  | inr j ↦ inr j
]

pub either : {A : Type 0} → A ⊎ A → A
either (inl a) = a
either (inr a) = a

-- Every payload twice
abbrev pub twice : Substrate
twice = record {
  deliver = λ P payloads. payloads ++ payloads;
  only_enqueued = λ P payloads p i. either (In-append_inv payloads payloads i);
  at_least_once = λ P payloads p i. In-append_left payloads i;
}

abbrev pub message : String → ConversationId → String → MessageEnvelope
message id c body = record {
  id = id;
  source = manual;
  author = record { id = "u-1"; display_name = "Ada" };
  conversation = record { id = c; thread = none };
  body = body;
}

abbrev pub three_messages : List MessageEnvelope
three_messages =
    message "m-1" "c-1" "is auth broken?"
    ∷ message "m-2" "c-2" "we decided on sqlite"
    ∷ message "m-3" "c-1" "hi"
    ∷ []

-- The first message again, edited
abbrev pub edited : List MessageEnvelope
edited = message "m-1" "c-1" "is auth fixed?" ∷ message "m-4" "c-2" "todo" ∷ []

abbrev pub lower : String → String
lower s = s

abbrev pub digest : List String → String
digest texts = join "|" texts

abbrev pub quote : String → String
quote s = "\"" <> (s <> "\"")

abbrev pub auth_question : Projection ℕ
auth_question = record {
  message_id = "m-1";
  intent = question;
  topics = "auth" ∷ "rust" ∷ [];
  entities = "refresh-token" ∷ [];
  confidence = record { value = 80 };
}

abbrev pub unsure_proposal : Projection ℕ
unsure_proposal = record auth_question {
  message_id = "m-2";
  intent = proposal;
  confidence = record { value = 50 };
}

abbrev pub a_decision : Projection ℕ
a_decision = record auth_question { message_id = "m-3"; intent = decision; topics = "billing" ∷ [] }

abbrev pub two_contributions : List (SkillContribution ℕ)
two_contributions =
    record {
      author = "u-2";
      display_name = "Bob";
      topics = "rust" ∷ "auth" ∷ [];
      confidence = record { value = 60 };
    }
    ∷ record {
      author = "u-1";
      display_name = "Ada";
      topics = "rust" ∷ "rust" ∷ [];
      confidence = record { value = 80 };
    }
    ∷ []

abbrev pub two_ownerships : List (TopicOwnership ℕ)
two_ownerships =
    record {
      topic = "rust";
      candidates =
          record { author = "u-1"; display_name = "Ada"; score = record { value = 100 } }
          ∷ record { author = "u-2"; display_name = "Bob"; score = record { value = 40 } }
          ∷ [];
    }
    ∷ record {
      topic = "billing";
      candidates =
          record { author = "u-3"; display_name = "Cy"; score = record { value = 100 } } ∷ [];
    }
    ∷ []

abbrev pub to_human : RoutingDecision
to_human = record { message_id = "m-1"; target = human; reason = "intent"; escalated = false }

abbrev pub a_warmup : WarmupDocument
a_warmup = record {
  conversation = "c-1";
  focus = "auth-sdk" ∷ [];
  decisions = [];
  open_questions = "m-1" ∷ [];
  tasks = [];
  summary = "You are joining c-1.";
}

-- The stores of a run that reached one conversation
abbrev pub some_stores : ReplayStores ℕ
some_stores = record {
  projections = ("m-1", auth_question) ∷ [];
  scopes = [];
  warmups = ("c-1", a_warmup) ∷ [];
  skills = [];
  hints = [];
  developers = [];
}

abbrev pub a_derivation : ConversationDerivation ℕ
a_derivation = record {
  conversation = "c-1";
  projections = auth_question ∷ [];
  scope = none;
  warmup = a_warmup;
  developers = none;
  hints = [];
}
