-- ===== src/Core/MessageLog/Sessions.antt =====
-- The sessions of a log: its conversation ids and the messages of each, from
-- crates/mirrorlane-core/src/message_log.rs.
use mirrorlane.Base.{
  ◌≡◌, Bool, false, ◌||◌, List, [], ◌∷◌, arith, string_eq, ◌==◌, Bool-cases, inl, inr,
}
use text.Mathlib.TextEquality.{eq_iff}
use mirrorlane.Base.Lists.{contains, contains-append, Nodup, Nodup-append_one, foldl}
use mirrorlane.Core.Message.{ConversationId, MessageEnvelope}
use mirrorlane.Core.MessageLog.{see, conversation_ids}

-- Some message belongs to the conversation.
abbrev pub mentions : ConversationId → List MessageEnvelope → Bool
mentions c [] = false
mentions c (m ∷ ms) = m.conversation.id == c || mentions c ms

see-Nodup :
    (seen : List ConversationId) (ms : List MessageEnvelope)
    → Nodup seen
    → Nodup (foldl see seen ms)
see-Nodup seen [] u = u
see-Nodup seen (m ∷ ms) u =
    see-Nodup (see seen m) ms (elim (Bool-cases (contains m.conversation.id seen)) [
      | inl old ↦ rw old u
      | inr fresh ↦ rw fresh (Nodup-append_one m.conversation.id seen u fresh)
    ])

pub contains-see :
    (c : ConversationId) (seen : List ConversationId) (ms : List MessageEnvelope)
    → contains c (foldl see seen ms) ≡ (contains c seen || mentions c ms)
contains-see c seen [] = ground arith
contains-see c seen (m ∷ ms) = ground (
  arith,
  contains-see c (see seen m) ms,
  contains-append c seen (m.conversation.id ∷ []),
  eq_iff m.conversation.id c,
)

-- Each conversation is listed once, and exactly the conversations of the messages are listed.
pub conversation_ids_exact :
    (ms : List MessageEnvelope)
    → Nodup (conversation_ids ms)
      × ((c : ConversationId) → contains c (conversation_ids ms) ≡ mentions c ms)
unfolding conversation_ids
conversation_ids_exact ms = (see-Nodup [] ms tt, λ c. contains-see c [] ms)
