-- ===== src/Provider/Skill/Weights.antt =====
-- The weights of crates/mirrorlane-provider/src/skill.rs against the mentions of a topic by an author.
use mathlib.Core.List.{append-nil, append_assoc}
use text.Mathlib.TextEquality.{eq_iff}
use mirrorlane.Base.{
  String, ◌≡◌, refl, sym, ap, ◌∙◌, Option-cases, inl, inr, Option, none, some, List, [], ◌∷◌, ◌++◌,
  arith, string_eq, ◌==◌, if◌then◌else◌, get_or,
}
use mirrorlane.Base.Float.{Float}
use mirrorlane.Base.HashMap
use mirrorlane.Base.Lists.{foldl}
use mirrorlane.Base.OrdMap
use mirrorlane.Base.OrdMap.{OrdMap}
use mirrorlane.Core.Message.{AuthorId}
use mirrorlane.Core.Projection.{Topic}
use mirrorlane.Core.Skill.{SkillContribution}
use mirrorlane.Provider.Skill.{PerAuthor, credit_topics, contribute, collect}

get-update :
    {V : Type 0} (k j : String) (d : V) (g : V → V) (m : OrdMap V)
    → HashMap.get j (OrdMap.update k d g m)
      ≡ (if k == j then some (g (get_or (HashMap.get k m) d)) else HashMap.get j m)
unfolding OrdMap.update
get-update k j d g m = OrdMap.get-insert k j (g (get_or (HashMap.get k m) d)) m

module _ {R : Type 0} ⦃f : Float R⦄ where
  abbrev pub weight_in : Topic → Option (String × OrdMap R) → Option R
  weight_in topic none = none
  weight_in topic (some (name, weights)) = HashMap.get topic weights

  -- The weight that the index holds for an author and a topic
  abbrev pub weight_of : AuthorId → Topic → PerAuthor R → Option R
  weight_of author topic m = weight_in topic (HashMap.get author m)

  -- The confidence once for each mention of the topic
  abbrev pub mentions_in : R → Topic → List Topic → List R
  mentions_in confidence topic [] = []
  mentions_in confidence topic (t ∷ ts) =
      if t == topic
      then confidence ∷ mentions_in confidence topic ts
      else mentions_in confidence topic ts

  -- The confidences of the mentions of a topic in the contributions of an author, in order
  abbrev pub credits : AuthorId → Topic → List (SkillContribution R) → List R
  credits author topic [] = []
  credits author topic (c ∷ cs) =
      if c.author == author
      then mentions_in c.confidence.value topic c.topics ++ credits author topic cs
      else credits author topic cs

  -- Each credit is added to what is there, or to 0.
  abbrev pub add_all : Option R → List R → Option R
  add_all weight [] = weight
  add_all weight (c ∷ cs) = add_all (some (f.add (get_or weight f.zero) c)) cs

  add_all-append :
      (o : Option R) (xs ys : List R) → add_all o (xs ++ ys) ≡ add_all (add_all o xs) ys
  add_all-append o [] ys = refl
  add_all-append o (x ∷ xs) ys = add_all-append (some (f.add (get_or o f.zero) x)) xs ys

  get-credit_topics :
      (confidence : R) (topic : Topic) (ts : List Topic) (m : OrdMap R)
      → HashMap.get topic (credit_topics confidence ts m)
        ≡ add_all (HashMap.get topic m) (mentions_in confidence topic ts)
  unfolding credit_topics
  get-credit_topics confidence topic [] m = refl
  get-credit_topics confidence topic (t ∷ ts) m =
      let more = OrdMap.update t f.zero (λ w. f.add w confidence) m in
      get-credit_topics confidence topic ts more
      ∙ ground (arith, get-update t topic f.zero (λ w. f.add w confidence) m, eq_iff t topic)

  weight_of-contribute :
      (author : AuthorId) (topic : Topic) (c : SkillContribution R) (m : PerAuthor R)
      → weight_of author topic (contribute m c)
        ≡ add_all (weight_of author topic m) (credits author topic (c ∷ []))
  unfolding contribute HashMap.get
  weight_of-contribute author topic c m =
      let d : String × OrdMap R = (c.display_name, []) in
      let g : String × OrdMap R → String × OrdMap R =
        λ entry. (c.display_name, credit_topics c.confidence.value c.topics entry.1) in
      elim (Option-cases (HashMap.get c.author m)) [
        | inl e ↦ ground (
          arith,
          e,
          get-update c.author author d g m,
          eq_iff c.author author,
          append-nil (mentions_in c.confidence.value topic c.topics),
          get-credit_topics c.confidence.value topic c.topics [],
        )
        | inr (entry, e) ↦ ground (
          arith,
          e,
          get-update c.author author d g m,
          eq_iff c.author author,
          append-nil (mentions_in c.confidence.value topic c.topics),
          get-credit_topics c.confidence.value topic c.topics entry.1,
        )
      ]

  credits-cons :
      (author : AuthorId) (topic : Topic) (c : SkillContribution R)
      (cs : List (SkillContribution R))
      → credits author topic (c ∷ []) ++ credits author topic cs ≡ credits author topic (c ∷ cs)
  credits-cons author topic c cs = ground (
    arith,
    append_assoc (mentions_in c.confidence.value topic c.topics) [] (credits author topic cs),
  )

  weight_of-foldl :
      (author : AuthorId) (topic : Topic) (cs : List (SkillContribution R)) (m : PerAuthor R)
      → weight_of author topic (foldl contribute m cs)
        ≡ add_all (weight_of author topic m) (credits author topic cs)
  weight_of-foldl author topic [] m = refl
  weight_of-foldl author topic (c ∷ cs) m =
      weight_of-foldl author topic cs (contribute m c)
      ∙ (ap (λ w. add_all w (credits author topic cs)) (weight_of-contribute author topic c m)
          ∙ (sym (
                add_all-append (weight_of author topic m) (credits author topic (c ∷ []))
                  (credits author topic cs))
              ∙ ap (add_all (weight_of author topic m)) (credits-cons author topic c cs)))

  -- In the map that the contributions are collected into, the weight of a topic under an author is the
  -- sum, from 0 and in order, of the confidence of every mention of the topic in a contribution of the
  -- author; there is no weight without a mention.
  pub collect-credits :
      (author : AuthorId) (topic : Topic) (cs : List (SkillContribution R))
      → weight_of author topic (collect cs) ≡ add_all none (credits author topic cs)
  unfolding collect HashMap.get
  collect-credits author topic cs = weight_of-foldl author topic cs []
