-- ===== src/Github/Rest/Fetched.antt =====
-- Of the items that crates/mirrorlane-github/src/rest.rs makes of the two pages: a comment stands in
-- the conversation of its issue.
use Prim.Native.String.append as append
use mirrorlane.Base.{ℕ, String, ◌<>◌, ◌≡◌, refl, Option, some}
use mirrorlane.Base.Decimal.{show_ℕ}
use mirrorlane.Base.Decimal.Plain.{show_ℕ-plain}
use mirrorlane.Base.Split.{rsplit_next-append}
use mirrorlane.Github.Item.{Repo, to_message}
use mirrorlane.Github.Rest.{
  IssueDto, CommentDto, slash, number_from_issue_url, issue_item, comment_item,
}

-- Where `u64::parse` reads a printed number back, the number of an issue's URL is the issue's.
number_from_issue_url-issue :
    (parse : String → Option ℕ)
    → ((n : ℕ) → parse (show_ℕ n) ≡ some n)
    → (n : ℕ) (prefix : String) → number_from_issue_url parse (prefix <> ("/" <> show_ℕ n)) ≡ n
unfolding number_from_issue_url
number_from_issue_url-issue parse round n prefix =
    rw
      (
        append.cons slash String.[] (show_ℕ n),
        append.nil (show_ℕ n),
        rsplit_next-append slash prefix (show_ℕ n) (show_ℕ-plain n),
        round n,
      )
      refl

-- Where `u64::parse` reads a printed number back, a comment whose `issue_url` ends in the number of
-- an issue of the repository becomes a message in the conversation of that issue, whether the issue is
-- a pull request or not.
pub comment_item-conversation :
    (parse : String → Option ℕ)
    → ((n : ℕ) → parse (show_ℕ n) ≡ some n)
    → (repo : Repo) (dto : IssueDto) (reply : CommentDto) (prefix : String)
    → reply.issue_url ≡ prefix <> ("/" <> show_ℕ dto.number)
    → (to_message (comment_item parse repo reply)).conversation
      ≡ (to_message (issue_item repo dto)).conversation
unfolding to_message comment_item issue_item
comment_item-conversation parse round repo dto reply prefix e =
    rw (e, number_from_issue_url-issue parse round dto.number prefix) refl
