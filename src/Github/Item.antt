-- ===== src/Github/Item.antt =====
-- crates/mirrorlane-github/src/model.rs and source.rs: a GitHub item as a message, and its ingestion into
-- the log. A fetch is the list of items that it returns.
pub mod Ingested
use mirrorlane.Base.{ℕ, String, ◌<>◌, Option, none, some, List, [], ◌∷◌, map}
use mirrorlane.Base.Decimal.{show_ℕ}
use mirrorlane.Core.Message.{MessageId, Author, Conversation, MessageEnvelope, github}
use mirrorlane.Core.MessageLog.{Log, append}

pub record Repo : Type 0 where
  pub owner : String
  pub name : String

pub data GitHubItemKind : Type 0 where
  issue pull_request comment : GitHubItemKind

unfoldable pub tag : GitHubItemKind → String
tag issue = "issue"
tag pull_request = "pull-request"
tag comment = "comment"

pub record GitHubItem : Type 0 where
  pub kind : GitHubItemKind
  pub repo : Repo
  pub number : ℕ
  pub id : String
  pub author_login : String
  pub title : Option String
  pub body : String

-- The body of the message: a title, where an issue or a pull request has one, stands above it.
unfoldable pub body_of : GitHubItemKind → Option String → String → String
body_of comment title body = body
body_of issue none body = body
body_of pull_request none body = body
body_of issue (some title) body = title <> ("\n\n" <> body)
body_of pull_request (some title) body = title <> ("\n\n" <> body)

unfoldable pub to_message : GitHubItem → MessageEnvelope
unfolding tag body_of
to_message item = record {
  id =
      "github:"
      <> (item.repo.owner
          <> ("/" <> (item.repo.name <> (":" <> (tag item.kind <> (":" <> item.id))))));
  source = github;
  author = record { id = item.author_login; display_name = item.author_login };
  conversation = record {
    id = "github:" <> (item.repo.owner <> ("/" <> (item.repo.name <> ("#" <> show_ℕ item.number))));
    thread = none;
  };
  body = body_of item.kind item.title item.body;
}

-- The appends of `ingest_items`, in order, and the ids that it returns
unfoldable pub ingest_items : List GitHubItem → Log → List MessageId × Log
unfolding to_message
ingest_items [] log = ([], log)
ingest_items (item ∷ items) log =
    let message = to_message item in
    let (ids, after) = ingest_items items (append message log) in (message.id ∷ ids, after)

-- `FixtureGitHubSource::fetch`
abbrev pub fixture_fetch : List GitHubItem → Repo → List GitHubItem
fixture_fetch items repo = items

-- `ingest_repo`; `fetch` is that of the source.
unfoldable pub ingest_repo : (Repo → List GitHubItem) → Repo → Log → List MessageId × Log
ingest_repo fetch repo log = ingest_items (fetch repo) log
