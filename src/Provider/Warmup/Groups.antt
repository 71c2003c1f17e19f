-- ===== src/Provider/Warmup/Groups.antt =====
-- The loop of crates/mirrorlane-provider/src/warmup.rs against three selections from the session.
use mathlib.Core.List.{append_assoc, append-nil}
use mirrorlane.Base.{◌≡◌, refl, ap, ◌∙◌, Option, List, [], ◌∷◌, ◌++◌, map, ◌==◌}
use mirrorlane.Base.Lists.{filter}
use mirrorlane.Core.Message.{ConversationId, MessageId}
use mirrorlane.Core.Projection.{
  Intent, question, decision, proposal, task, issue, social, Projection, intent_eq,
}
use mirrorlane.Core.Scope.{Scope}
use mirrorlane.Provider.Warmup.{Sorted, sort_one, sort_projections, focus_of, build}

module _ {R : Type 0} where
  -- The ids of the projections with the intent, in order
  abbrev pub with_intent : Intent → List (Projection R) → List MessageId
  with_intent intent ps = map (λ p. p.message_id) (filter (λ p. p.intent == intent) ps)

  -- The vectors `s` with the selections from `ps` at their ends
  abbrev extend : Sorted → List (Projection R) → Sorted
  extend s ps = record {
    decisions = s.decisions ++ with_intent decision ps;
    open_questions = s.open_questions ++ with_intent question ps;
    tasks = s.tasks ++ with_intent task ps;
  }

  extend-sort_one :
      (i : Intent) (id : MessageId) (ps : List (Projection R)) (s : Sorted) (p : Projection R)
      → p.intent ≡ i
      → p.message_id ≡ id
      → extend (sort_one i id s) ps ≡ extend s (p ∷ ps)
  unfolding sort_one
  extend-sort_one decision id ps s p e d =
      rw (e, d, append_assoc s.decisions (id ∷ []) (with_intent decision ps)) refl
  extend-sort_one question id ps s p e d =
      rw (e, d, append_assoc s.open_questions (id ∷ []) (with_intent question ps)) refl
  extend-sort_one task id ps s p e d =
      rw (e, d, append_assoc s.tasks (id ∷ []) (with_intent task ps)) refl
  extend-sort_one proposal id ps s p e d = rw e refl
  extend-sort_one issue id ps s p e d = rw e refl
  extend-sort_one social id ps s p e d = rw e refl

  sort_projections-with_intent :
      (ps : List (Projection R)) (s : Sorted) → sort_projections ps s ≡ extend s ps
  unfolding sort_projections
  sort_projections-with_intent [] s = simp append-nil
  sort_projections-with_intent (p ∷ ps) s =
      sort_projections-with_intent ps (sort_one p.intent p.message_id s)
      ∙ extend-sort_one p.intent p.message_id ps s p refl refl

  -- A warm-up lists the decisions, the questions and the tasks of its session, each in the order of the
  -- session and nothing else, and its focus is what the scope loads, or nothing without a scope.
  pub build-with_intent :
      (c : ConversationId) (scope : Option (Scope R)) (ps : List (Projection R))
      → ((build c scope ps).decisions ≡ with_intent decision ps)
        × ((build c scope ps).open_questions ≡ with_intent question ps)
        × ((build c scope ps).tasks ≡ with_intent task ps)
        × ((build c scope ps).focus ≡ focus_of scope)
        × ((build c scope ps).conversation ≡ c)
  unfolding build
  build-with_intent c scope ps =
      let e =
        sort_projections-with_intent ps
          (record { decisions = []; open_questions = []; tasks = [] }) in
      (ap (λ s. s.decisions) e, ap (λ s. s.open_questions) e, ap (λ s. s.tasks) e, refl, refl)
