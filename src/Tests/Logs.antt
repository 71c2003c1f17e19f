-- ===== src/Tests/Logs.antt =====
-- The message log at concrete messages.
use mirrorlane.Base.{◌≡◌, none, some, List, [], ◌∷◌, map, string_eq}
use mirrorlane.Base.Lists.{foldl}
use mirrorlane.Core.MessageLog.{new, append, all, conversation_ids, messages_for}
use mirrorlane.Core.MessageLog.Idempotent.{appends_idempotent}
use mirrorlane.Core.MessageLog.Refines.{Represents-new, log_refines_entries}
use mirrorlane.Core.MessageLog.Spec.{entries}
use mirrorlane.Github.Item.{GitHubItem, issue, comment, ingest_items}
use mirrorlane.Github.Item.Ingested.{ingest_items-idempotent}
use mirrorlane.Worker.Grouping.{group_by_conversation}
use mirrorlane.Worker.Grouping.Exact.{group_by_conversation_exact}
use mirrorlane.Tests.Fixtures.{three_messages, edited}

log_refines_entries_example :
    all (foldl (λ l m. append m l) new three_messages) ≡ some (entries three_messages)
log_refines_entries_example = (log_refines_entries three_messages).0

appends_idempotent_example :
    all (foldl (λ l m. append m l) (foldl (λ l m. append m l) new edited) edited)
    ≡ all (foldl (λ l m. append m l) new edited)
appends_idempotent_example = (appends_idempotent new [] edited Represents-new).0

group_by_conversation_exact_example :
    group_by_conversation three_messages
    ≡ map
        (λ c. (c, map (λ m. m.id) (messages_for c three_messages)))
        (conversation_ids three_messages)
group_by_conversation_exact_example = group_by_conversation_exact three_messages

abbrev two_items : List GitHubItem
two_items =
    record {
      kind = issue;
      repo = record { owner = "o"; name = "r" };
      number = 7;
      id = "7";
      author_login = "ada";
      title = some "Crash";
      body = "It broke.";
    }
    ∷ record {
      kind = comment;
      repo = record { owner = "o"; name = "r" };
      number = 7;
      id = "71";
      author_login = "bob";
      title = none;
      body = "Same here.";
    }
    ∷ []

ingest_items-idempotent_example :
    all (ingest_items two_items (ingest_items two_items new).1).1
    ≡ all (ingest_items two_items new).1
ingest_items-idempotent_example = (ingest_items-idempotent two_items new [] Represents-new).2
