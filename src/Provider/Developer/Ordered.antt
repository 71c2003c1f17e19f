-- ===== src/Provider/Developer/Ordered.antt =====
-- The snapshot of crates/mirrorlane-provider/src/developer.rs: whom it lists and with which topics.
use mathlib.Core.List.{Perm}
use mathlib.Core.List.Perm
use text.Mathlib.TextEquality.{eq_iff}
use mirrorlane.Base.{
  ◌≡◌, refl, sym, ◌∙◌, subst, Bool, true, false, Option, some, List, [], ◌∷◌, map, arith, string_eq,
  Bool-cases, Option-cases, inl, inr, ◌⊎◌, ap, ◌==◌,
}
use mirrorlane.Base.Float.{Float, lt_asymm}
use mirrorlane.Base.Lists.{In, here, there, In-map_inv, find, filter_map, push_some}
use mirrorlane.Base.Sort.{IsSorted, sort_by-IsSorted, In-sort_by, sort_by-In, sort_by-Perm}
use mirrorlane.Base.Text.{str_lt, str_lt_asymm}
use mirrorlane.Core.Message.{AuthorId, ConversationId}
use mirrorlane.Core.Skill.{
  ExpertCandidate, TopicOwnership, TopicWeight, Participant, DeveloperSnapshot,
}
use mirrorlane.Provider.Developer.{topic_weight, weighs_before, snapshot_one, snapshot}

In-filter_map :
    {A B : Type 0} (g : A → Option B) (b : B) (xs : List A)
    → In b (filter_map g xs)
    → (a : A) × In a xs × (g a ≡ some b)
In-filter_map g b [] i = elim i [ ]
In-filter_map g b (x ∷ xs) i = elim (Option-cases (g x)) [
  | inl e ↦
      let (a, j, h) =
        In-filter_map g b xs (subst (λ o. In b (push_some o (filter_map g xs))) e i) in
      (a, there j, h)
  | inr (y, e) ↦ elim (subst (λ o. In b (push_some o (filter_map g xs))) e i) [
    | here k ↦ (x, here refl, rw (e, k))
    | there j ↦ let (a, l, h) = In-filter_map g b xs j in (a, there l, h)
  ]
]

In-find :
    {A : Type 0} (g : A → Bool) (a : A) (xs : List A) → find g xs ≡ some a → In a xs × (g a ≡ true)
In-find g a [] h = absurd (cc)
In-find g a (x ∷ xs) h = elim (Bool-cases (g x)) [
  | inl t ↦ (here (ground arith), ground arith)
  | inr t ↦ let (i, e) = In-find g a xs (ground arith) in (there i, e)
]

-- And what is chosen is there.
filter_map-In :
    {A B : Type 0} (g : A → Option B) (a : A) (b : B) (xs : List A)
    → In a xs
    → g a ≡ some b
    → In b (filter_map g xs)
filter_map-In g a b [] i e = elim i [ ]
filter_map-In g a b (x ∷ xs) (here same) e =
    let found : g x ≡ some b = ap g (sym same) ∙ e in rw found (here refl)
filter_map-In g a b (x ∷ xs) (there i) e = elim (Option-cases (g x)) [
  | inl none_there ↦ rw none_there (filter_map-In g a b xs i e)
  | inr (y, some_there) ↦ rw some_there (there (filter_map-In g a b xs i e))
]

find-In :
    {A : Type 0} (g : A → Bool) (a : A) (xs : List A)
    → In a xs
    → g a ≡ true
    → (b : A) × (find g xs ≡ some b)
find-In g a [] i e = elim i [ ]
find-In g a (x ∷ xs) (here same) e = (x, ground (arith, ap g same))
find-In g a (x ∷ xs) (there i) e =
    let (b, h) = find-In g a xs i e in
    elim (Bool-cases (g x)) [ inl t ↦ (x, rw t refl) | inr t ↦ (b, rw t h) ]

module _ {R : Type 0} ⦃f : Float R⦄ where
  -- The weight is the score of the author among the candidates of an ownership.
  pub record Scored (os : List (TopicOwnership R)) (author : AuthorId) (w : TopicWeight R)
      : Type 0 where
    pub ownership : TopicOwnership R
    pub known : In ownership os
    pub topic : w.topic ≡ ownership.topic
    pub candidate : ExpertCandidate R
    pub listed : In candidate ownership.candidates
    pub same : candidate.author ≡ author
    pub weight : w.weight ≡ candidate.score.value

  topic_weight-Scored :
      (os : List (TopicOwnership R)) (author : AuthorId) (o : TopicOwnership R) (w : TopicWeight R)
      → In o os
      → topic_weight author o ≡ some w
      → Scored os author w
  unfolding topic_weight
  topic_weight-Scored os author o w i h =
      elim (Option-cases (find (λ c. c.author == author) o.candidates)) [
        | inl e ↦ absurd (ground (arith, e))
        | inr (c, e) ↦
            let (j, same) = In-find (λ c. c.author == author) c o.candidates e in
            let s : some (record { topic = o.topic; weight = c.score.value }) ≡ some w =
              ground (arith, e) in
            record {
              ownership = o;
              known = i;
              topic = ground (arith, s);
              candidate = c;
              listed = j;
              same = (eq_iff c.author author).0 same;
              weight = ground (arith, s);
            }
      ]

  weighs_before_asymm : (a b : TopicWeight R) → weighs_before a b ≡ true → weighs_before b a ≡ false
  weighs_before_asymm a b h =
      ground (arith, lt_asymm b.weight a.weight, str_lt_asymm a.topic b.topic)

  -- An ownership with a candidate who is the author has a weight in the topics.
  Scored-topic_weight :
      (author : AuthorId) (o : TopicOwnership R) (c : ExpertCandidate R)
      → In c o.candidates
      → c.author ≡ author
      → (w : TopicWeight R) × (topic_weight author o ≡ some w) × (w.topic ≡ o.topic)
  unfolding topic_weight
  Scored-topic_weight author o c i same =
      let (b, found) =
        find-In (λ c. c.author == author) c o.candidates i ((eq_iff c.author author).1 same) in
      (record { topic = o.topic; weight = b.score.value }, rw found refl, refl)

  -- A later topic has no greater weight, and where it has no smaller one either, no smaller name.
  abbrev pub Descends : List (TopicWeight R) → Type 0
  Descends [] = Unit
  Descends (a ∷ []) = Unit
  Descends (a ∷ b ∷ ws) =
      (f.lt a.weight b.weight ≡ false)
      × ((f.lt b.weight a.weight ≡ true) ⊎ (str_lt b.topic a.topic ≡ false))
      × Descends (b ∷ ws)

  IsSorted-Descends : (ws : List (TopicWeight R)) → IsSorted weighs_before ws → Descends ws
  IsSorted-Descends [] s = tt
  IsSorted-Descends (a ∷ []) s = tt
  IsSorted-Descends (a ∷ b ∷ ws) (h, s) = (ground arith, tie, IsSorted-Descends (b ∷ ws) s)
    where
      tie : (f.lt b.weight a.weight ≡ true) ⊎ (str_lt b.topic a.topic ≡ false)
      tie = elim (Bool-cases (f.lt b.weight a.weight)) [
        | inl e ↦ inl e
        | inr e ↦ inr (ground arith)
      ]

  -- What a snapshot says of the topics of one developer: exactly the ownerships that have the author
  -- among their candidates, with the author's score, heaviest first
  pub record Describes (os : List (TopicOwnership R)) (d : DeveloperSnapshot R) : Type 0 where
    pub ranked : Descends d.topics
    pub scored : (w : TopicWeight R) → In w d.topics → Scored os d.author w
    pub complete :
        (o : TopicOwnership R) (c : ExpertCandidate R)
        → In o os
        → In c o.candidates
        → c.author ≡ d.author
        → (w : TopicWeight R) × In w d.topics × (w.topic ≡ o.topic)

  snapshot_one-Describes :
      (os : List (TopicOwnership R)) (p : Participant) → Describes os (snapshot_one os p)
  unfolding snapshot_one
  snapshot_one-Describes os p = record {
    ranked = IsSorted-Descends _ (sort_by-IsSorted weighs_before weighs_before_asymm _);
    scored = λ w j.
        let (o, k, e) =
          In-filter_map (topic_weight p.author) w os (In-sort_by weighs_before w _ j) in
        topic_weight-Scored os p.author o w k e;
    complete = λ o c known i same.
        let (w, chosen, topic) = Scored-topic_weight p.author o c i same in
        (
          w,
          sort_by-In weighs_before w _ (filter_map-In (topic_weight p.author) o w os known chosen),
          topic,
        );
  }

  abbrev pub named : DeveloperSnapshot R → Participant
  named d = record { author = d.author; display_name = d.display_name }

  map-named :
      (os : List (TopicOwnership R)) (ps : List Participant)
      → map named (map (snapshot_one os) ps) ≡ ps
  unfolding snapshot_one
  map-named os [] = refl
  map-named os (p ∷ ps) = ap (λ qs. p ∷ qs) (map-named os ps)

  -- The developers of a snapshot are a rearrangement of the participants, each with its name, in
  -- ascending order of the author ids. The topics of each are exactly those of the ownerships that have the
  -- author among their candidates, each with a score that the author has there; and they descend: by
  -- weight, and where the weights do not differ, the topics ascend.
  pub snapshot-Describes :
      (c : ConversationId) (ps : List Participant) (os : List (TopicOwnership R))
      → Perm (map named (snapshot c ps os).developers) ps
        × IsSorted (λ a b. str_lt a.author b.author) (snapshot c ps os).developers
        × ((d : DeveloperSnapshot R) → In d (snapshot c ps os).developers → Describes os d)
  unfolding snapshot
  snapshot-Describes c ps os = (
    subst (λ qs. Perm (map named (snapshot c ps os).developers) qs) (map-named os ps)
        (Perm.map named
          (sort_by-Perm (λ a b. str_lt a.author b.author) (map (snapshot_one os) ps))),
    sort_by-IsSorted (λ a b. str_lt a.author b.author) (λ a b h. str_lt_asymm a.author b.author h)
        _,
    λ d i.
        let (p, j, e) =
          In-map_inv (snapshot_one os) ps (In-sort_by (λ a b. str_lt a.author b.author) d _ i) in
        subst (Describes os) (sym e) (snapshot_one-Describes os p),
  )
