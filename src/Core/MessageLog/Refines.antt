-- ===== src/Core/MessageLog/Refines.antt =====
-- The log of crates/mirrorlane-core/src/message_log.rs (id list and map) against the list of messages
-- that it stands for.
use mirrorlane.Base.{◌≡◌, refl, some, List, [], ◌∷◌, arith, string_eq}
use mirrorlane.Base.Lists.{In, here, there, contains, Nodup, foldl}
use mirrorlane.Base.HashMap
use mirrorlane.Base.HashMap.{HashMap}
use mirrorlane.Core.Message.{MessageId, MessageEnvelope}
use mirrorlane.Core.MessageLog.{Log, new, append, get, index_all, all}
use mirrorlane.Core.MessageLog.Spec.{
  ids, find_id, replace_or_push, entries, find_id-replace_or_push, ids-replace_or_push,
  contains-ids-find_id, Nodup-replace_or_push, find_id_of_In,
}

-- The log stands for these messages.
pub record Represents (log : Log) (ms : List MessageEnvelope) : Type 0 where
  pub order : log.order ≡ ids ms
  pub lookups : (j : MessageId) → HashMap.get j log.by_id ≡ find_id j ms
  pub unique : Nodup (ids ms)

pub Represents-new : Represents new []
unfolding find_id
Represents-new = record { order = refl; lookups = λ j. HashMap.get-nil j; unique = tt }

contains_key-Represents :
    (log : Log) (ms : List MessageEnvelope) (j : MessageId)
    → Represents log ms
    → HashMap.contains_key j log.by_id ≡ contains j (ids ms)
unfolding HashMap.contains_key
contains_key-Represents log ms j r = ground (arith, r.lookups j, contains-ids-find_id j ms)

-- Appending to the log is appending to what it stands for: replaced in place, or added at the end.
pub append-Represents :
    (message : MessageEnvelope) (log : Log) (ms : List MessageEnvelope)
    → Represents log ms
    → Represents (append message log) (replace_or_push ms message)
unfolding append
append-Represents message log ms r = record {
  order =
      ground (
        arith,
        r.order,
        contains_key-Represents log ms message.id r,
        ids-replace_or_push message ms,
      );
  lookups = λ j. ground (
    arith,
    r.lookups j,
    HashMap.get-insert message.id j message log.by_id,
    find_id-replace_or_push j message ms,
  );
  unique = Nodup-replace_or_push message ms r.unique;
}

pub appends-Represents :
    (appended : List MessageEnvelope) (log : Log) (ms : List MessageEnvelope)
    → Represents log ms
    → Represents (foldl (λ l m. append m l) log appended) (foldl replace_or_push ms appended)
appends-Represents [] log ms r = r
appends-Represents (m ∷ appended) log ms r =
    appends-Represents appended (append m log) (replace_or_push ms m) (append-Represents m log ms r)

index_all-ids :
    (by_id : HashMap MessageId MessageEnvelope) (ms : List MessageEnvelope)
    → ((m : MessageEnvelope) → In m ms → HashMap.get m.id by_id ≡ some m)
    → index_all (ids ms) by_id ≡ some ms
unfolding index_all
index_all-ids by_id [] h = refl
index_all-ids by_id (m ∷ ms) h = rw (h m (here refl), index_all-ids by_id ms (λ x i. h x (there i)))

-- `all` never meets a missing id, and returns what the log stands for.
pub all-Represents : (log : Log) (ms : List MessageEnvelope) → Represents log ms → all log ≡ some ms
unfolding all
all-Represents log ms r =
    rw r.order (index_all-ids log.by_id ms (λ m i. rw r.lookups (find_id_of_In m ms r.unique i)))

-- A log that messages were appended to in turn stands for the entries of those messages, each id
-- once: `all` returns them without a panic, and `get` finds each by its id.
pub log_refines_entries :
    (appended : List MessageEnvelope)
    → (all (foldl (λ l m. append m l) new appended) ≡ some (entries appended))
      × ((j : MessageId)
          → get j (foldl (λ l m. append m l) new appended) ≡ find_id j (entries appended))
      × Nodup (ids (entries appended))
unfolding entries get
log_refines_entries appended =
    let r = appends-Represents appended new [] Represents-new in
    (all-Represents _ _ r, r.lookups, r.unique)
