-- ===== src/Github/Rest/Authorized.antt =====
-- What the client of crates/mirrorlane-github/src/rest.rs sends: the world of its calls is the list of
-- the requests that were sent, and a reply may depend on all of them.
use mirrorlane.Base.{
  ℕ, String, ◌<>◌, ◌≡◌, refl, sym, subst, ◌⊎◌, inl, inr, Bool, true, false, ◌||◌, Option, none,
  List, [], ◌∷◌, arith, string_eq, ◌==◌,
}
use text.Mathlib.TextEquality.{eq_iff}
use mirrorlane.Base.Http.{HttpRequest, Reply, Http}
use mirrorlane.Base.Lists.{In, here, there}
use mirrorlane.Base.Result.{Result, ok, err}
use mirrorlane.Github.Item.{Repo}
use mirrorlane.Github.Rest.{
  RestGitHubSource, IssueDto, CommentDto, GitHubFetchError, default_base_url, sends_token,
  request_of, get, issues_url, comments_url, and_then, items_of, fetch_comments, try_fetch,
}

abbrev pub recording : (List HttpRequest → HttpRequest → Reply) → Http (List HttpRequest)
recording answer request sent = (answer sent request, request ∷ sent)

abbrev pub names_header : String → List (String × String) → Bool
names_header name [] = false
names_header name ((n, v) ∷ headers) = n == name || names_header name headers

-- What is sent with no credential, or to the default host
abbrev pub Guarded : RestGitHubSource → HttpRequest → Type 0
Guarded source r =
    ((path : String) × (r.url ≡ source.base_url <> path))
    × (names_header "Authorization" r.headers ≡ true → source.base_url ≡ default_base_url)
    × (r.body ≡ none)

request_of-Guarded :
    (source : RestGitHubSource) (url path : String)
    → url ≡ source.base_url <> path
    → Guarded source (request_of source url)
unfolding request_of sends_token
request_of-Guarded source url path e =
    ((path, e), (λ h. ground (arith, eq_iff source.base_url default_base_url)), refl)

and_then-sent :
    {A B : Type 0} (r : HttpRequest) (first : Result GitHubFetchError A × List HttpRequest)
    (rest : A → List HttpRequest → Result GitHubFetchError B × List HttpRequest)
    → In r (and_then first rest).1
    → In r first.1 ⊎ ((a : A) × In r (rest a first.1).1)
and_then-sent r (err e, w) rest h = inl h
and_then-sent r (ok a, w) rest h = inr (a, h)

In-Guarded :
    (source : RestGitHubSource) (r : HttpRequest) (url path : String) (sent : List HttpRequest)
    → url ≡ source.base_url <> path
    → (In r sent → Guarded source r)
    → In r (request_of source url ∷ sent)
    → Guarded source r
In-Guarded source r url path sent e rest (here eq) =
    subst (Guarded source) (sym eq) (request_of-Guarded source url path e)
In-Guarded source r url path sent e rest (there i) = rest i

module _ (answer : List HttpRequest → HttpRequest → Reply) (parse : String → Option ℕ)
    (issues_json : String → Result String (List IssueDto))
    (comments_json : String → Result String (List CommentDto)) (source : RestGitHubSource)
    (repo : Repo) where
  abbrev http : Http (List HttpRequest)
  http = recording answer

  abbrev issues : String
  issues = issues_url source repo

  abbrev comments : String
  comments = comments_url source repo

  abbrev pub sent : List HttpRequest
  sent = (try_fetch http parse issues_json comments_json source repo []).1

  -- The requests of a fetch go under the base URL, have no body, and carry an `Authorization` header
  -- only where the base URL is the default host, whatever the replies are, errors included.
  pub try_fetch-Guarded : (r : HttpRequest) → In r sent → Guarded source r
  unfolding try_fetch fetch_comments get issues_url comments_url
  try_fetch-Guarded r h =
      elim (and_then-sent r (get issues_json http source issues [])
        (fetch_comments http parse issues_json comments_json source repo) h) [
          | inl i ↦ first i
          | inr (a, i) ↦
              elim (and_then-sent r
                (get comments_json http source comments (request_of source issues ∷ []))
                (items_of http parse issues_json comments_json repo a) i) [
                  | inl j ↦ second j
                  | inr (b, j) ↦ second j
                ]
        ]
    where
      first : In r (request_of source issues ∷ []) → Guarded source r
      first i = In-Guarded source r issues _ [] refl (λ none_sent. elim none_sent [ ]) i

      second : In r (request_of source comments ∷ request_of source issues ∷ []) → Guarded source r
      second i = In-Guarded source r comments _ (request_of source issues ∷ []) refl first i
