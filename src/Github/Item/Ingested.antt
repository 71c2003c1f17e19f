-- ===== src/Github/Item/Ingested.antt =====
-- Re-ingestion of the items of crates/mirrorlane-github/src/source.rs.
use mirrorlane.Base.{◌≡◌, refl, ap, some, List, [], ◌∷◌, map}
use mirrorlane.Base.Lists.{foldl}
use mirrorlane.Core.Message.{MessageEnvelope}
use mirrorlane.Core.MessageLog.{Log, append, all}
use mirrorlane.Core.MessageLog.Spec.{ids, replace_or_push}
use mirrorlane.Core.MessageLog.Refines.{Represents}
use mirrorlane.Core.MessageLog.Idempotent.{appends_idempotent}
use mirrorlane.Github.Item.{GitHubItem, to_message, ingest_items}

ingest_items-foldl :
    (items : List GitHubItem) (log : Log)
    → ingest_items items log
      ≡ (ids (map to_message items), foldl (λ l m. append m l) log (map to_message items))
unfolding ingest_items
ingest_items-foldl [] log = refl
ingest_items-foldl (item ∷ items) log = rw (ingest_items-foldl items (append (to_message item) log))

-- Ingesting items into a log that stands for any messages returns their message ids in order, leaves the
-- log with those messages appended, and ingesting the same items again leaves what `all` returns.
pub ingest_items-idempotent :
    (items : List GitHubItem) (log : Log) (ms : List MessageEnvelope)
    → Represents log ms
    → ((ingest_items items log).0 ≡ ids (map to_message items))
      × (all (ingest_items items log).1 ≡ some (foldl replace_or_push ms (map to_message items)))
      × (all (ingest_items items (ingest_items items log).1).1 ≡ all (ingest_items items log).1)
ingest_items-idempotent items log ms r =
    let (again, once) = appends_idempotent log ms (map to_message items) r in
    (
      ap (λ x. x.0) (ingest_items-foldl items log),
      rw (ingest_items-foldl items log) once,
      rw (ingest_items-foldl items log, ingest_items-foldl items _) again,
    )
