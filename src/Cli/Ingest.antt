-- ===== src/Cli/Ingest.antt =====
-- crates/mirrorlane-cli/src/commands.rs: `ingest`, `parse_repo`, `github_ingest_rest` and `build_strategy`.
-- serde_json's reading of a message, with the text of its error, is a parameter; `quote` is `{:?}` of a
-- string.
pub mod RepoSpec
pub mod Atomic
use Prim.Native.Char.{Char}
use mirrorlane.Base.{ℕ, String, ◌<>◌, Bool, not, ◌&&◌, Option, none, some, List, if◌then◌else◌}
use mirrorlane.Base.Http.{Http}
use mirrorlane.Base.Result.{Result, ok, err, ◌>>=◌}
use mirrorlane.Base.Split.{is_empty, has_char, split_once}
use mirrorlane.Core.Message.{MessageId, MessageEnvelope}
use mirrorlane.Core.MessageLog.{Log, append}
use mirrorlane.Github.Item as Item
use mirrorlane.Github.Item.{GitHubItem, ingest_items}
use mirrorlane.Github.Rest.{
  RestGitHubSource, GitHubFetchError, IssueDto, CommentDto, slash, show_fetch_error, try_fetch,
}
use mirrorlane.Worker.Composition.{Substrate}
use mirrorlane.Worker.Jobs.{StrategyContext}
use mirrorlane.Worker.Registry.{
  ReplayStrategy, BuildResult, built, unknown_strategy, build, with_builtins, show_unknown_strategy,
}

abbrev pub ingested : Result String MessageEnvelope → Log → Result String MessageId × Log
ingested (err e) log = (err e, log)
ingested (ok message) log = (ok message.id, append message log)

unfoldable pub ingest :
    (String → Result String MessageEnvelope) → String → Log → Result String MessageId × Log
ingest from_json text log = ingested (from_json text) log

module _ (quote : String → String) where
  abbrev pub invalid_repo : String → Result String Item.Repo
  invalid_repo spec = err ("invalid --repo " <> (quote spec <> "; expected owner/name"))

  abbrev pub repo_of : String → Option (String × String) → Result String Item.Repo
  repo_of spec none = invalid_repo spec
  repo_of spec (some (owner, name)) =
      if not (is_empty owner) && (not (is_empty name) && not (has_char slash name))
      then ok (record { owner = owner; name = name })
      else invalid_repo spec

  unfoldable pub parse_repo : String → Result String Item.Repo
  parse_repo spec = repo_of spec (split_once slash spec)

  module _ {World : Type 0} (http : Http World) (parse : String → Option ℕ)
      (issues_json : String → Result String (List IssueDto))
      (comments_json : String → Result String (List CommentDto)) where
    abbrev pub ingest_fetched :
        Result GitHubFetchError (List GitHubItem) × World
        → Log
        → Result String (List MessageId) × Log × World
    ingest_fetched (err e, w) log = (err (show_fetch_error e), log, w)
    ingest_fetched (ok items, w) log =
        let (ids, after) = ingest_items items log in (ok ids, after, w)

    abbrev pub ingest_repo :
        RestGitHubSource
        → Result String Item.Repo
        → Log
        → World
        → Result String (List MessageId) × Log × World
    ingest_repo source (err e) log w = (err e, log, w)
    ingest_repo source (ok repo) log w =
        ingest_fetched (try_fetch http parse issues_json comments_json source repo w) log

    unfoldable pub github_ingest_rest :
        RestGitHubSource → String → Log → World → Result String (List MessageId) × Log × World
    unfolding parse_repo
    github_ingest_rest source repo log w = ingest_repo source (parse_repo repo) log w

  abbrev pub strategy_of : {R : Type 0} → BuildResult R → Result String (ReplayStrategy R)
  strategy_of (built strategy) = ok strategy
  strategy_of (unknown_strategy id) = err (show_unknown_strategy quote id)

  -- `build_strategy`, of what `strategy_context` returns
  unfoldable pub build_strategy :
      {R : Type 0}
      → Substrate
      → Result String (StrategyContext R)
      → String
      → Result String (ReplayStrategy R)
  build_strategy substrate context id = do
    ctx ← context
    strategy_of (build (with_builtins substrate) id ctx)
