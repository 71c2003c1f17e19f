-- ===== src/Worker/Grouping/Exact.antt =====
-- The single pass groups exactly: the conversations are those of the log in first-seen order, and
-- each has its own messages in append order, as a scan of the log for each conversation finds.
use mirrorlane.Base.{
  ◌≡◌, refl, ap, true, false, ◌||◌, none, some, List, [], ◌∷◌, ◌++◌, map, arith, string_eq, ◌==◌,
  if◌then◌else◌, get_or,
}
use mathlib.Core.List.{append-nil, append_assoc}
use text.Mathlib.TextEquality.{eq_iff}
use mirrorlane.Base.Lists.{foldl, filter, contains, Nodup}
use mirrorlane.Base.HashMap
use mirrorlane.Base.HashMap.{HashMap}
use mirrorlane.Core.Message.{ConversationId, MessageEnvelope}
use mirrorlane.Core.MessageLog.{see, conversation_ids, messages_for}
use mirrorlane.Core.MessageLog.Sessions.{mentions, contains-see, conversation_ids_exact}
use mirrorlane.Worker.Grouping.{Groups, group_step, group, drain, group_by_conversation}

module _ {A : Type 0} (item : MessageEnvelope → A) where
  -- The items of the conversation's messages
  abbrev pub items_for : ConversationId → List MessageEnvelope → List A
  items_for c ms = map item (filter (λ m. m.conversation.id == c) ms)

  -- What the loop variables are once the messages `ms` have been read.
  pub record IsGrouping (ms : List MessageEnvelope) (g : Groups A) : Type 0 where
    pub order : g.order ≡ conversation_ids ms
    pub lookups :
        (c : ConversationId)
        → HashMap.get c g.grouped ≡ (if mentions c ms then some (items_for c ms) else none)

  items_for-append_one :
      (c : ConversationId) (ms : List MessageEnvelope) (m : MessageEnvelope)
      → items_for c (ms ++ m ∷ [])
        ≡ (if m.conversation.id == c then items_for c ms ++ item m ∷ [] else items_for c ms)
  items_for-append_one c [] m = ground arith
  items_for-append_one c (x ∷ ms) m = ground (arith, items_for-append_one c ms m)

  items_for-unmentioned :
      (c : ConversationId) (ms : List MessageEnvelope) → mentions c ms ≡ false → items_for c ms ≡ []
  items_for-unmentioned c [] h = refl
  items_for-unmentioned c (m ∷ ms) h = ground (arith, items_for-unmentioned c ms)

mentions-append_one :
    (c : ConversationId) (ms : List MessageEnvelope) (m : MessageEnvelope)
    → mentions c (ms ++ m ∷ []) ≡ (mentions c ms || m.conversation.id == c)
mentions-append_one c [] m = ground arith
mentions-append_one c (x ∷ ms) m = ground (arith, mentions-append_one c ms m)

see-append_one :
    (seen : List ConversationId) (ms : List MessageEnvelope) (m : MessageEnvelope)
    → foldl see seen (ms ++ m ∷ []) ≡ see (foldl see seen ms) m
see-append_one seen [] m = refl
see-append_one seen (x ∷ ms) m = see-append_one (see seen x) ms m

module _ {A : Type 0} (item : MessageEnvelope → A) where
  group_step-IsGrouping :
      (ms : List MessageEnvelope) (g : Groups A) (m : MessageEnvelope)
      → IsGrouping item ms g
      → IsGrouping item (ms ++ m ∷ []) (group_step item g m)
  unfolding group_step HashMap.contains_key conversation_ids
  group_step-IsGrouping ms g m h = record {
    order = rw see-append_one (
        ground (arith, h.order, h.lookups m.conversation.id, contains-see m.conversation.id [] ms));
    lookups = λ c. ground (
      arith,
      h.lookups c,
      h.lookups m.conversation.id,
      HashMap.get-update m.conversation.id c [] (λ (items : List A). items ++ item m ∷ [])
          g.grouped,
      mentions-append_one c ms m,
      items_for-append_one item c ms m,
      items_for-unmentioned item c ms,
      eq_iff m.conversation.id c,
    );
  }

  group_from-IsGrouping :
      (before ms : List MessageEnvelope) (g : Groups A)
      → IsGrouping item before g
      → IsGrouping item (before ++ ms) (foldl (group_step item) g ms)
  group_from-IsGrouping before [] g h = rw append-nil h
  group_from-IsGrouping before (m ∷ ms) g h = rw (← append_assoc before (m ∷ []) ms) (
      group_from-IsGrouping (before ++ m ∷ []) ms (group_step item g m)
        (group_step-IsGrouping before g m h))

  pub group-IsGrouping : (log : List MessageEnvelope) → IsGrouping item log (group item log)
  unfolding group conversation_ids
  group-IsGrouping log =
      group_from-IsGrouping [] log (record { order = []; grouped = [] })
        (record { order = refl; lookups = λ c. HashMap.get-nil c })

drain-map :
    {A : Type 0} (f : ConversationId → List A) (order : List ConversationId)
    (grouped : HashMap ConversationId (List A))
    → Nodup order
    → ((c : ConversationId) → contains c order ≡ true → get_or (HashMap.get c grouped) [] ≡ f c)
    → drain order grouped ≡ map (λ c. (c, f c)) order
unfolding drain
drain-map f [] grouped u h = refl
drain-map f (c ∷ order) grouped u h = rw (h c (ground (arith, eq_iff c c))) (
    ap (◌∷◌ (c, f c)) (
      drain-map f order (HashMap.remove c grouped) u.1
        (λ d i. rw HashMap.get-remove (ground (arith, h d, eq_iff c d)))))

-- Grouping the log by conversation gives, for each conversation in first-seen order, the ids of its
-- messages in append order.
pub group_by_conversation_exact :
    (log : List MessageEnvelope)
    → group_by_conversation log
      ≡ map (λ c. (c, map (λ m. m.id) (messages_for c log))) (conversation_ids log)
unfolding group_by_conversation messages_for
group_by_conversation_exact log =
    let g = group-IsGrouping (λ m. m.id) log in
    let (once, all) = conversation_ids_exact log in
    rw g.order (
      drain-map (λ c. items_for (λ m. m.id) c log) (conversation_ids log) _ once
        (λ c i. ground (arith, g.lookups c, all c)))
