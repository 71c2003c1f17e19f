-- ===== src/Core/MessageLog/Idempotent.antt =====
-- Appending again what was appended before (crates/mirrorlane-core/src/message_log.rs): re-ingestion.
use text.Mathlib.TextEquality.{eq_iff}
use mirrorlane.Base.{
  ◌≡◌, refl, sym, ap, ◌∙◌, true, some, List, [], ◌∷◌, map, arith, string_eq, ◌||◌,
}
use mirrorlane.Base.Lists.{contains, contains-append, Nodup, foldl}
use mirrorlane.Base.HashMap
use mirrorlane.Base.HashMap.{HashMap}
use mirrorlane.Base.HashMap.Writes.{last_write, or_else}
use mirrorlane.Core.Message.{MessageId, MessageEnvelope}
use mirrorlane.Core.MessageLog.{Log, append, all}
use mirrorlane.Core.MessageLog.Spec.{
  ids, find_id, replace_or_push, find_id-replace_or_push, ids-replace_or_push,
}
use mirrorlane.Core.MessageLog.Refines.{Represents, all-Represents, appends-Represents}

as_map : List MessageEnvelope → HashMap MessageId MessageEnvelope
as_map ms = map (λ m. (m.id, m)) ms

get-as_map : (j : MessageId) (ms : List MessageEnvelope) → HashMap.get j (as_map ms) ≡ find_id j ms
unfolding HashMap.get find_id as_map
get-as_map j [] = refl
get-as_map j (m ∷ ms) = ground (arith, get-as_map j ms)

some_inj : {A : Type 0} (a b : A) → some a ≡ some b → a ≡ b
some_inj a b h = cc

-- Lists of messages with the same ids in order, each once, and the same lookups are the same.
same_lookups :
    (xs ys : List MessageEnvelope)
    → Nodup (ids xs)
    → ids ys ≡ ids xs
    → ((j : MessageId) → find_id j ys ≡ find_id j xs)
    → ys ≡ xs
same_lookups xs ys unique order lookups =
    let log : Log = record { order = ids xs; by_id = as_map xs } in
    some_inj ys xs (
      sym (
        all-Represents log ys (record {
          order = sym order;
          lookups = λ j. get-as_map j xs ∙ sym (lookups j);
          unique = rw order unique;
        }))
      ∙ all-Represents log xs
          (record { order = refl; lookups = λ j. get-as_map j xs; unique = unique }))

find_id-foldl :
    (j : MessageId) (batch ms : List MessageEnvelope)
    → find_id j (foldl replace_or_push ms batch)
      ≡ or_else (last_write (λ m. m.id) j batch) (find_id j ms)
find_id-foldl j [] ms = refl
find_id-foldl j (m ∷ batch) ms =
    ground (arith, find_id-foldl j batch (replace_or_push ms m), find_id-replace_or_push j m ms)

contains-ids-foldl :
    (j : MessageId) (batch ms : List MessageEnvelope)
    → contains j (ids (foldl replace_or_push ms batch))
      ≡ (contains j (ids batch) || contains j (ids ms))
contains-ids-foldl j [] ms = refl
contains-ids-foldl j (m ∷ batch) ms = ground (
  arith,
  contains-ids-foldl j batch (replace_or_push ms m),
  ids-replace_or_push m ms,
  contains-append j (ids ms) (m.id ∷ []),
  eq_iff m.id j,
)

ids-foldl_known :
    (batch ms : List MessageEnvelope)
    → ((j : MessageId) → contains j (ids batch) ≡ true → contains j (ids ms) ≡ true)
    → ids (foldl replace_or_push ms batch) ≡ ids ms
ids-foldl_known [] ms h = refl
ids-foldl_known (m ∷ batch) ms h =
    let same : ids (replace_or_push ms m) ≡ ids ms =
      ground (arith, ids-replace_or_push m ms, h m.id, eq_iff m.id m.id) in
    ids-foldl_known batch (replace_or_push ms m) (λ j i. rw same (h j (ground arith))) ∙ same

-- To a log that stands for any messages, appending a batch a second time changes nothing that `all`
-- returns, and `all` returns: no message is there twice, none moves, and where the batch has an id
-- more than once its last message stands, as it did.
pub appends_idempotent :
    (log : Log) (ms batch : List MessageEnvelope)
    → Represents log ms
    → (all (foldl (λ l m. append m l) (foldl (λ l m. append m l) log batch) batch)
        ≡ all (foldl (λ l m. append m l) log batch))
      × (all (foldl (λ l m. append m l) log batch) ≡ some (foldl replace_or_push ms batch))
appends_idempotent log ms batch r =
    let once = appends-Represents batch log ms r in
    let again = appends-Represents batch _ (foldl replace_or_push ms batch) once in
    let same : foldl replace_or_push (foldl replace_or_push ms batch) batch
        ≡ foldl replace_or_push ms batch =
      same_lookups (foldl replace_or_push ms batch) _ once.unique
        (ids-foldl_known batch (foldl replace_or_push ms batch)
          (λ j i. ground (arith, contains-ids-foldl j batch ms)))
        (λ j. ground (
          arith,
          find_id-foldl j batch (foldl replace_or_push ms batch),
          find_id-foldl j batch ms,
        )) in
    (
      all-Represents _ _ again ∙ (ap some same ∙ sym (all-Represents _ _ once)),
      all-Represents _ _ once,
    )
