-- ===== src/Cli/Ingest/Atomic.antt =====
-- What `github_ingest_rest` of crates/mirrorlane-cli/src/commands.rs does to the log: all or nothing.
use mirrorlane.Base.{ℕ, String, ◌≡◌, refl, sym, ◌∙◌, ◌⊎◌, inl, inr, Option, some, List, map, ◌++◌}
use mirrorlane.Base.Http.{Http}
use mirrorlane.Base.Lists.{foldl}
use mirrorlane.Base.Result.{Result, ok, err}
use mirrorlane.Cli.Ingest.{parse_repo, ingest_repo, github_ingest_rest}
use mirrorlane.Cli.Ingest.RepoSpec.{NamesRepo, parse_repo_iff}
use mirrorlane.Core.Message.{MessageId}
use mirrorlane.Core.MessageLog.{Log, all}
use mirrorlane.Core.MessageLog.Spec.{ids, replace_or_push}
use mirrorlane.Core.MessageLog.Refines.{Represents}
use mirrorlane.Core.Message.{MessageEnvelope}
use mirrorlane.Github.Item as Item
use mirrorlane.Github.Item.{GitHubItem, to_message, ingest_items}
use mirrorlane.Github.Item.Ingested.{ingest_items-idempotent}
use mirrorlane.Github.Rest.{
  RestGitHubSource, GitHubFetchError, IssueDto, CommentDto, issue_item, comment_item, get, and_then,
  read_reply, request_of, show_fetch_error, fetch_comments, issues_url, comments_url, try_fetch,
}

err-ok_absurd : {A : Type 0} {e : String} {a : A} → ◌≡◌ {A = Result String A} (err e) (ok a) → ⊥
err-ok_absurd h = cc

module _ {World : Type 0} (quote : String → String) (http : Http World) (parse : String → Option ℕ)
    (issues_json : String → Result String (List IssueDto))
    (comments_json : String → Result String (List CommentDto)) (source : RestGitHubSource) where
  -- What each of the two requests is answered with in the world `w`, read: the issues first, and the
  -- comments in the world that the first request leaves
  abbrev pub issues_reply : Item.Repo → World → Result GitHubFetchError (List IssueDto)
  issues_reply repo w =
      read_reply issues_json (http (request_of source (issues_url source repo)) w).0

  abbrev pub comments_reply : Item.Repo → World → Result GitHubFetchError (List CommentDto)
  comments_reply repo w =
      let w' = (http (request_of source (issues_url source repo)) w).1 in
      read_reply comments_json (http (request_of source (comments_url source repo)) w').0

  -- The items are those of both pages that were answered: each issue and then each comment.
  abbrev pub Pages : Item.Repo → World → List GitHubItem → Type 0
  Pages repo w items =
      (issues : List IssueDto) × (comments : List CommentDto) × (issues_reply repo w ≡ ok issues)
      × (comments_reply repo w ≡ ok comments)
      × (items ≡ map (issue_item repo) issues ++ map (comment_item parse repo) comments)

  -- The error is that of the first page, or of the second where the first was read.
  abbrev pub Fails : Item.Repo → World → GitHubFetchError → Type 0
  Fails repo w e =
      (issues_reply repo w ≡ err e)
      ⊎ ((issues : List IssueDto) × (issues_reply repo w ≡ ok issues)
          × (comments_reply repo w ≡ err e))

  fetched :
      (repo : Item.Repo) (w : World)
      → ((e : GitHubFetchError) × (w' : World) × Fails repo w e
          × (try_fetch http parse issues_json comments_json source repo w ≡ (err e, w')))
        ⊎ ((items : List GitHubItem) × (w' : World) × Pages repo w items
            × (try_fetch http parse issues_json comments_json source repo w ≡ (ok items, w')))
  unfolding try_fetch fetch_comments get
  fetched repo w = by_replies (issues_reply repo w) (comments_reply repo w) refl refl
    where
      after_issues : World
      after_issues = (http (request_of source (issues_url source repo)) w).1

      after_comments : World
      after_comments = (http (request_of source (comments_url source repo)) after_issues).1

      by_replies :
          (first : Result GitHubFetchError (List IssueDto))
          (second : Result GitHubFetchError (List CommentDto))
          → issues_reply repo w ≡ first
          → comments_reply repo w ≡ second
          → ((e : GitHubFetchError) × (w' : World) × Fails repo w e
              × (try_fetch http parse issues_json comments_json source repo w ≡ (err e, w')))
            ⊎ ((items : List GitHubItem) × (w' : World) × Pages repo w items
                × (try_fetch http parse issues_json comments_json source repo w ≡ (ok items, w')))
      by_replies (err e) second h k = inl (e, after_issues, inl h, rw (h, and_then) refl)
      by_replies (ok issues) (err e) h k =
          inl (e, after_comments, inr (issues, h, k), rw (h, and_then, k, and_then) refl)
      by_replies (ok issues) (ok comments) h k = inr (
        map (issue_item repo) issues ++ map (comment_item parse repo) comments,
        after_comments,
        (issues, comments, h, k, refl),
        rw (h, and_then, k, and_then) refl,
      )

  -- What an ingestion of the repository that `spec` names may do to a log that stands for `ms`, in the
  -- world `w`
  abbrev pub AllOrNothing :
      String
      → Log
      → List MessageEnvelope
      → World
      → Result String (List MessageId) × Log × World
      → Type 0
  AllOrNothing spec log ms w (err text, log', w') =
      (log' ≡ log)
      × (((repo : Item.Repo) → ¬ NamesRepo spec repo)
          ⊎ ((repo : Item.Repo) × (e : GitHubFetchError) × NamesRepo spec repo
              × Fails repo w e
              × (text ≡ show_fetch_error e)))
  AllOrNothing spec log ms w (ok returned, log', w') =
      (repo : Item.Repo) × (items : List GitHubItem) × NamesRepo spec repo
      × Pages repo w items
      × (returned ≡ ids (map to_message items))
      × (all log' ≡ some (foldl replace_or_push ms (map to_message items)))

  -- Of a log that stands for any messages. An ingestion that fails leaves the log as it was, and it fails
  -- because the text names no repository, or because one of the two pages (the issues, then the comments)
  -- was answered with an error, whose text it returns. One that succeeds was answered with
  -- both pages of the repository that was named: it appends the message of every issue and
  -- then of every comment answered, and returns their ids in order.
  pub github_ingest_rest-AllOrNothing :
      (spec : String) (log : Log) (ms : List MessageEnvelope) (w : World)
      → Represents log ms
      → AllOrNothing spec log ms w
          (github_ingest_rest quote http parse issues_json comments_json source spec log w)
  unfolding github_ingest_rest
  github_ingest_rest-AllOrNothing spec log ms w r = named (parse_repo quote spec) refl
    where
      named :
          (parsed : Result String Item.Repo)
          → parse_repo quote spec ≡ parsed
          → AllOrNothing spec log ms w
              (ingest_repo quote http parse issues_json comments_json source parsed log w)
      named (err e) is_parsed = (
        refl,
        inl (λ repo names.
            absurd (err-ok_absurd (sym is_parsed ∙ (parse_repo_iff quote spec repo).1 names))),
      )
      named (ok repo) is_parsed =
          let names = (parse_repo_iff quote spec repo).0 is_parsed in
          elim (fetched repo w) [
            | inl (e, w', fails, failed) ↦ rw failed (refl, inr (repo, e, names, fails, refl))
            | inr (items, w', pages, fetch) ↦
                let (returned, appended, again) = ingest_items-idempotent items log ms r in
                rw fetch (repo, items, names, pages, returned, appended)
          ]
