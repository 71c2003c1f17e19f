-- ===== src/Provider/Hint/Reviewers.antt =====
-- The reviewers that crates/mirrorlane-provider/src/hint.rs suggests.
use mirrorlane.Base.{
  ◌≡◌, refl, sym, subst, true, String, List, [], ◌∷◌, string_eq, Bool-cases, inl, inr,
}
use mirrorlane.Base.Float.{Float}
use mirrorlane.Base.Lists.{In, here, there, In-map_inv, contains, foldl}
use mirrorlane.Base.OrdMap
use mirrorlane.Base.OrdMap.{OrdMap}
use mirrorlane.Base.Sort.{IsSorted, sort_by-IsSorted, In-sort_by}
use mirrorlane.Core.Projection.{Projection, Topic}
use mirrorlane.Core.Skill.{ExpertCandidate, TopicOwnership}
use mirrorlane.Provider.Skill.{ranks_before}
use mirrorlane.Provider.Skill.Ranked.{ranks_before_asymm}
use mirrorlane.Provider.Hint.{first, total_candidate, total_ownerships, rank_totals, hint}

AllKeys-In :
    {V : Type 0} (P : String → Type 0) (m : OrdMap V) (entry : String × V)
    → OrdMap.AllKeys P m
    → In entry m
    → P entry.0
AllKeys-In P [] entry a i = elim i [ ]
AllKeys-In P ((k, v) ∷ m) entry (p, a) (here e) = rw e p
AllKeys-In P ((k, v) ∷ m) entry (p, a) (there i) = AllKeys-In P m entry a i

module _ {R : Type 0} ⦃f : Float R⦄ where
  -- The author is a candidate of an ownership of one of the topics.
  pub record Owns (topics : List Topic) (ownerships : List (TopicOwnership R)) (author : String)
      : Type 0 where
    pub ownership : TopicOwnership R
    pub known : In ownership ownerships
    pub on_topic : contains ownership.topic topics ≡ true
    pub candidate : ExpertCandidate R
    pub listed : In candidate ownership.candidates
    pub same : candidate.author ≡ author

  candidates-AllKeys :
      (P : String → Type 0) (cs : List (ExpertCandidate R)) (m : OrdMap (String × R))
      → ((c : ExpertCandidate R) → In c cs → P c.author)
      → OrdMap.AllKeys P m
      → OrdMap.AllKeys P (foldl total_candidate m cs)
  unfolding total_candidate
  candidates-AllKeys P [] m h a = a
  candidates-AllKeys P (c ∷ cs) m h a =
      candidates-AllKeys P cs (total_candidate m c) (λ x i. h x (there i))
        (OrdMap.AllKeys-update P c.author _ _ m (h c (here refl)) a)

  ownerships-AllKeys :
      (P : String → Type 0) (topics : List Topic) (os : List (TopicOwnership R))
      (m : OrdMap (String × R))
      → ((o : TopicOwnership R)
          → In o os
          → contains o.topic topics ≡ true
          → (c : ExpertCandidate R) → In c o.candidates
          → P c.author)
      → OrdMap.AllKeys P m
      → OrdMap.AllKeys P (total_ownerships topics os m)
  unfolding total_ownerships
  ownerships-AllKeys P topics [] m h a = a
  ownerships-AllKeys P topics (o ∷ os) m h a = elim (Bool-cases (contains o.topic topics)) [
    | inl t ↦
        rw (t, total_ownerships)
          (ownerships-AllKeys P topics os (foldl total_candidate m o.candidates)
            (λ x i. h x (there i)) (candidates-AllKeys P o.candidates m (h o (here refl) t) a))
    | inr t ↦ rw (t, total_ownerships) (ownerships-AllKeys P topics os m (λ x i. h x (there i)) a)
  ]

  -- The reviewers of a message are ranked, the hint to a human is the first of them, and each is a
  -- candidate for one of the message's own topics: no ownership of another topic lets one in.
  pub hint-Owns :
      (p : Projection R) (os : List (TopicOwnership R))
      → IsSorted ranks_before (hint p os).reviewers
        × ((hint p os).human_hint ≡ first (hint p os).reviewers)
        × ((r : ExpertCandidate R) → In r (hint p os).reviewers → Owns p.topics os r.author)
  unfolding hint rank_totals
  hint-Owns p os = (
    sort_by-IsSorted ranks_before ranks_before_asymm _,
    refl,
    λ r i.
        let (entry, j, e) =
          In-map_inv _ (total_ownerships p.topics os []) (In-sort_by ranks_before r _ i) in
        subst (λ t. Owns p.topics os t.author) (sym e)
          (AllKeys-In (Owns p.topics os) (total_ownerships p.topics os []) entry
            (ownerships-AllKeys (Owns p.topics os) p.topics os []
              (λ o k t c l. record {
                ownership = o;
                known = k;
                on_topic = t;
                candidate = c;
                listed = l;
                same = refl;
              })
              tt)
            j),
  )
