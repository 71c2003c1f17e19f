-- ===== src/Cli/Ingest/RepoSpec.antt =====
-- Which texts `parse_repo` of crates/mirrorlane-cli/src/commands.rs takes for a repository.
use mirrorlane.Base.{String, ◌<>◌, ◌≡◌, ◌↔◌, refl, sym, ap, Bool, true, false, Option, none, some}
use mirrorlane.Base.Result.{ok, ok-inj}
use mirrorlane.Base.Split.{is_empty, has_char, split_once, split_once-some, split_once-append}
use mirrorlane.Cli.Ingest.{repo_of, parse_repo}
use mirrorlane.Github.Item.{Repo}
use mirrorlane.Github.Rest.{slash}

-- `owner/name`, of two texts that are not empty and have no slash
abbrev pub NamesRepo : String → Repo → Type 0
NamesRepo spec repo =
    (spec ≡ repo.owner <> String.◌∷◌ slash repo.name)
    × (has_char slash repo.owner ≡ false)
    × (has_char slash repo.name ≡ false)
    × (is_empty repo.owner ≡ false)
    × (is_empty repo.name ≡ false)

module _ (quote : String → String) where
  repo_of-ok :
      (spec owner name : String) (repo : Repo)
      → repo_of quote spec (some (owner, name)) ≡ ok repo
      → (owner ≡ repo.owner)
        × (name ≡ repo.name)
        × (has_char slash name ≡ false)
        × (is_empty owner ≡ false)
        × (is_empty name ≡ false)
  repo_of-ok spec owner name repo h =
      by_tests (is_empty owner) refl (is_empty name) refl (has_char slash name) refl
    where
      by_tests :
          (a : Bool)
          → is_empty owner ≡ a
          → (b : Bool) → is_empty name ≡ b
          → (c : Bool) → has_char slash name ≡ c
          → (owner ≡ repo.owner)
            × (name ≡ repo.name)
            × (has_char slash name ≡ false)
            × (is_empty owner ≡ false)
            × (is_empty name ≡ false)
      by_tests false e false k false l =
          let same = ok-inj (rw (e, k, l) at h) in
          (ap (λ (r : Repo). r.owner) same, ap (λ (r : Repo). r.name) same, l, e, k)
      by_tests true e b k c l = absurd (cc (rw e at h))
      by_tests false e true k c l = absurd (cc (rw (e, k) at h))
      by_tests false e false k true l = absurd (cc (rw (e, k, l) at h))

  -- A text is parsed as a repository exactly where it is the owner, a slash and the name, neither empty
  -- and neither with a slash of its own; so at most one repository is read from a text.
  pub parse_repo_iff :
      (spec : String) (repo : Repo) → (parse_repo quote spec ≡ ok repo) ↔ NamesRepo spec repo
  unfolding parse_repo
  parse_repo_iff spec repo = (
    λ h. forth (split_once slash spec) refl h,
    λ n.
        let (e, free, plain, owned, named) = n in
        rw (e, split_once-append slash repo.owner repo.name free, owned, named, plain) refl,
  )
    where
      forth :
          (o : Option (String × String))
          → split_once slash spec ≡ o
          → repo_of quote spec o ≡ ok repo
          → NamesRepo spec repo
      forth none e h = absurd (cc)
      forth (some (owner, name)) e h =
          let (same_owner, same_name, plain, owned, named) = repo_of-ok spec owner name repo h in
          let (parts, free) = split_once-some slash spec owner name e in
          rw (sym same_owner, sym same_name) (parts, free, plain, owned, named)
