-- ===== src/Github/Rest.antt =====
-- crates/mirrorlane-github/src/rest.rs: the client of the REST interface. Parameters: the crate ureq
-- (`Http`), serde_json's readings of the two pages with the text of their errors, and `str::parse` of
-- a `u64`. A call of the client is what it does to the `World` of the calls and what it returns.
pub mod Authorized
pub mod Fetched
use Prim.Native.Char.{Char}
use mirrorlane.Base.{
  ℕ, String, ◌<>◌, Bool, true, false, not, ◌&&◌, Option, none, some, List, [], ◌∷◌, ◌++◌, map,
  get_or, string_eq, ◌==◌, if◌then◌else◌,
}
use mirrorlane.Base.Decimal.{show_ℕ}
use mirrorlane.Base.Http.{HttpRequest, Reply, transport, status, unreadable, answered, Http}
use mirrorlane.Base.Result.{Result, ok, err, map_err, map_ok}
use mirrorlane.Base.Split.{rsplit_next}
use mirrorlane.Github.Item.{Repo, GitHubItem, GitHubItemKind, issue, pull_request, comment}

abbrev pub default_base_url : String
default_base_url = "https://api.github.com"

pub data GitHubFetchError : Type 0 where
  transport_error : String → GitHubFetchError
  status_error : ℕ → String → GitHubFetchError
  read_error : String → GitHubFetchError
  parse_error : String → GitHubFetchError

-- `Display`
unfoldable pub show_fetch_error : GitHubFetchError → String
show_fetch_error (transport_error e) = "github request failed: " <> e
show_fetch_error (status_error code message) =
    "github returned HTTP " <> (show_ℕ code <> (" " <> message))
show_fetch_error (read_error e) = "github response was not readable: " <> e
show_fetch_error (parse_error e) = "github response was malformed: " <> e

pub record RestGitHubSource : Type 0 where
  pub base_url : String
  pub token : Option String

abbrev pub is_some : {A : Type 0} → Option A → Bool
is_some none = false
is_some (some a) = true

-- `RestGitHubSource::new`, with what it prints on stderr
unfoldable pub new : String → Option String → List String × RestGitHubSource
new base_url token = (
  if is_some token && not (base_url == default_base_url)
      then ("github: withholding GITHUB_TOKEN for non-default base URL "
          <> (base_url <> (" (token is only sent to " <> (default_base_url <> ")"))))
        ∷ []
      else [],
  record { base_url = base_url; token = token },
)

unfoldable pub sends_token : RestGitHubSource → Bool
sends_token source = is_some source.token && source.base_url == default_base_url

-- The header, where there is a token to send
abbrev pub authorization : Option String → List (String × String)
authorization none = []
authorization (some token) = ("Authorization", "token " <> token) ∷ []

-- The request that `get` makes
unfoldable pub request_of : RestGitHubSource → String → HttpRequest
unfolding sends_token
request_of source url = record {
  url = url;
  headers =
      ("User-Agent", "mirrorlane")
      ∷ ("Accept", "application/vnd.github+json")
      ∷ (if sends_token source then authorization source.token else []);
  body = none;
}

module _ {T : Type 0} (from_json : String → Result String T) where
  -- The reply as a value or an error
  abbrev pub read_reply : Reply → Result GitHubFetchError T
  read_reply (transport t) = err (transport_error t)
  read_reply (status code message) = err (status_error code message)
  read_reply (unreadable e) = err (read_error e)
  read_reply (answered body) = map_err parse_error (from_json body)

  unfoldable pub get :
      {World : Type 0}
      → Http World
      → RestGitHubSource
      → String
      → World
      → Result GitHubFetchError T × World
  unfolding request_of
  get http source url w = let (reply, w') = http (request_of source url) w in (read_reply reply, w')

pub record UserDto : Type 0 where
  pub login : String

-- Of `pull_request`, whether it is there
pub record IssueDto : Type 0 where
  pub number : ℕ
  pub title : Option String
  pub body : Option String
  pub user : UserDto
  pub pull_request : Bool

pub record CommentDto : Type 0 where
  pub id : ℕ
  pub body : Option String
  pub user : UserDto
  pub issue_url : String

abbrev pub slash : Char
slash = "/"

unfoldable pub number_from_issue_url : (String → Option ℕ) → String → ℕ
number_from_issue_url parse issue_url = get_or (parse (rsplit_next slash issue_url)) 0

-- The item that a round of the first loop of `try_fetch` pushes
unfoldable pub issue_item : Repo → IssueDto → GitHubItem
issue_item repo dto = record {
  kind = if dto.pull_request then pull_request else issue;
  repo = repo;
  number = dto.number;
  id = show_ℕ dto.number;
  author_login = dto.user.login;
  title = dto.title;
  body = get_or dto.body "";
}

-- And of the second
unfoldable pub comment_item : (String → Option ℕ) → Repo → CommentDto → GitHubItem
unfolding number_from_issue_url
comment_item parse repo dto = record {
  kind = comment;
  repo = repo;
  number = number_from_issue_url parse dto.issue_url;
  id = "c-" <> show_ℕ dto.id;
  author_login = dto.user.login;
  title = none;
  body = get_or dto.body "";
}

unfoldable pub issues_url : RestGitHubSource → Repo → String
issues_url source repo =
    source.base_url
    <> ("/repos/" <> (repo.owner <> ("/" <> (repo.name <> "/issues?state=all&per_page=100"))))

unfoldable pub comments_url : RestGitHubSource → Repo → String
comments_url source repo =
    source.base_url
    <> ("/repos/" <> (repo.owner <> ("/" <> (repo.name <> "/issues/comments?per_page=100"))))

module _ {World : Type 0} where
  -- `?` of a call
  abbrev pub and_then :
      {A B : Type 0}
      → Result GitHubFetchError A × World
      → (A → World → Result GitHubFetchError B × World)
      → Result GitHubFetchError B × World
  and_then (err e, w) rest = (err e, w)
  and_then (ok a, w) rest = rest a w

  abbrev pub or_panic :
      Result GitHubFetchError (List GitHubItem) × World → Option (List GitHubItem) × World
  or_panic (ok items, w) = (some items, w)
  or_panic (err e, w) = (none, w)

module _ {World : Type 0} (http : Http World) (parse : String → Option ℕ)
    (issues_json : String → Result String (List IssueDto))
    (comments_json : String → Result String (List CommentDto)) where
  -- The items of `try_fetch`, of the comments that were read
  abbrev pub items_of :
      Repo
      → List IssueDto
      → List CommentDto
      → World
      → Result GitHubFetchError (List GitHubItem) × World
  items_of repo issues comments w =
      (ok (map (issue_item repo) issues ++ map (comment_item parse repo) comments), w)

  -- The second request of `try_fetch`, of the issues that were read
  unfoldable pub fetch_comments :
      RestGitHubSource
      → Repo
      → List IssueDto
      → World
      → Result GitHubFetchError (List GitHubItem) × World
  unfolding get comments_url issue_item comment_item
  fetch_comments source repo issues w =
      and_then (get comments_json http source (comments_url source repo) w) (items_of repo issues)

  unfoldable pub try_fetch :
      RestGitHubSource → Repo → World → Result GitHubFetchError (List GitHubItem) × World
  unfolding get issues_url fetch_comments
  try_fetch source repo w =
      and_then (get issues_json http source (issues_url source repo) w) (fetch_comments source repo)

  -- `fetch` of `RestGitHubSource`; a panic is `none`.
  unfoldable pub fetch : RestGitHubSource → Repo → World → Option (List GitHubItem) × World
  unfolding try_fetch
  fetch source repo w = or_panic (try_fetch source repo w)
