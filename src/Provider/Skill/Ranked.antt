-- ===== src/Provider/Skill/Ranked.antt =====
-- The ranking of the candidates in crates/mirrorlane-provider/src/skill.rs.
use mirrorlane.Base.{
  ◌≡◌, String, true, false, List, [], ◌∷◌, ◌++◌, arith, ◌⊎◌, if◌then◌else◌, ◌==◌, string_eq, get_or,
}
use mirrorlane.Base.HashMap
use mirrorlane.Base.Float.{Float, lt_asymm, max}
use mirrorlane.Base.Lists.{foldl}
use mirrorlane.Base.OrdMap
use mirrorlane.Base.OrdMap.{OrdMap}
use mirrorlane.Base.Text.{str_lt, str_lt_asymm}
use mirrorlane.Core.Message.{AuthorId}
use mirrorlane.Core.Projection.{Topic}
use mirrorlane.Core.Skill.{new_skill_score, ExpertCandidate}
use mirrorlane.Provider.Skill.{PerAuthor, PerTopic, normalize, ranks_before}

module _ {R : Type 0} ⦃f : Float R⦄ where
  pub ranks_before_asymm :
      (a b : ExpertCandidate R) → ranks_before a b ≡ true → ranks_before b a ≡ false
  ranks_before_asymm a b h =
      ground (arith, lt_asymm b.score.value a.score.value, str_lt_asymm a.author b.author)

  -- A later candidate has no greater score, and where it has no smaller one either, no smaller author id.
  abbrev pub Descends : List (ExpertCandidate R) → Type 0
  Descends [] = Unit
  Descends (a ∷ []) = Unit
  Descends (a ∷ b ∷ cs) =
      (f.lt a.score.value b.score.value ≡ false)
      × ((f.lt b.score.value a.score.value ≡ true) ⊎ (str_lt b.author a.author ≡ false))
      × Descends (b ∷ cs)

  -- An author with the weights, as contributors to one topic
  abbrev pub shares : Topic → AuthorId → String → OrdMap R → List (AuthorId × String × R)
  shares t author name [] = []
  shares t author name ((topic, weight) ∷ topics) =
      if topic == t
      then (author, name, weight) ∷ shares t author name topics
      else shares t author name topics

  -- Who has a weight in a topic, in ascending order of the authors
  abbrev pub holders : Topic → PerAuthor R → List (AuthorId × String × R)
  holders t [] = []
  holders t ((author, (name, topics)) ∷ per_author) =
      shares t author name topics ++ holders t per_author

  abbrev listed : Topic → PerTopic R → List (AuthorId × String × R)
  listed t m = get_or (HashMap.get t m) []

  -- The candidate that a contributor is, of the highest weight of the topic
  abbrev pub candidate : R → AuthorId × String × R → ExpertCandidate R
  candidate top h = record {
    author = h.0;
    display_name = h.1;
    score = new_skill_score (normalize top h.2);
  }

  abbrev pub highest : List (AuthorId × String × R) → R
  highest hs = foldl (λ best h. max best h.2) f.zero hs
