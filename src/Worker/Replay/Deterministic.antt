-- ===== src/Worker/Replay/Deterministic.antt =====
-- A replay (crates/mirrorlane-worker/src/replay.rs) leaves what the log and the ports determine, under
-- every sequence of at-least-once deliveries.
use text.Mathlib.TextEquality.{eq_iff}
use mathlib.Core.Path.{fun_ext}
use mathlib.Core.List.{map-id}
use mirrorlane.Base.{
  ◌≡◌, refl, ◌∙◌, Option, none, some, List, [], ◌∷◌, map, arith, string_eq, if◌then◌else◌,
  Option-cases, inl, inr,
}
use mirrorlane.Base.Lists.{contains, filter_map, Nodup, push_some}
use mirrorlane.Base.HashMap
use mirrorlane.Base.HashMap.{HashMap}
use mirrorlane.Base.HashMap.Writes.{write_all, last_write, Writes}
use mirrorlane.Core.Message.{ConversationId, MessageId, MessageEnvelope}
use mirrorlane.Core.MessageLog.Spec.{
  ids, find_id, find_id_of_In, In_of_find_id, contains-ids-find_id,
}
use mirrorlane.Core.Projection.{Projection, Topic}
use mirrorlane.Core.Routing.{RoutingHint}
use mirrorlane.Worker.Composition.{Substrate, per_message}
use mirrorlane.Worker.Jobs.{
  StrategyContext, process_message, build_scope, build_warmup, build_skill, hint_messages,
  build_routing_hint, build_developer_snapshot, resolve, contributions, collect_ownerships,
}
use mirrorlane.Worker.Replay.{
  project_phase, scope_phase, warmup_phase, skill_phase, hint_phase, developer_phase, run_phases,
  scope_request, warmup_request, skill_request, hint_request, developer_request,
}
use mirrorlane.Worker.Replay.Stages.{stage-lookup, global-lookup, conversation-lookup}
use mirrorlane.Worker.Replay.Denotation.{
  KeepsKeys, projection_of, session_of, scope_of, warmup_of, skill_of, hint_for, hint_of,
  developers_of, Denotes,
}

module _ {R : Type 0} (ctx : StrategyContext R) where
  abbrev projected : MessageEnvelope → List (Projection R)
  projected m = push_some (ctx.project m) []

  process_message-writes :
      (m : MessageEnvelope) (s : HashMap MessageId (Projection R))
      → (process_message ctx m s).1 ≡ write_all (λ p. p.message_id) s (projected m)
  unfolding process_message
  process_message-writes m s = ground arith

  module _ (keeps : KeepsKeys ctx) (log : List MessageEnvelope) (unique : Nodup (ids log)) where
    project-Writes : Writes (λ p. p.message_id) projected (projection_of ctx log) log
    unfolding projection_of
    project-Writes = record {
      agree = λ m i j v h.
          ground (arith, keeps.project m v, find_id_of_In m log unique i, eq_iff v.message_id j);
      reach = λ j v h. elim (Option-cases (find_id j log)) [
        | inl e ↦ absurd (cc)
        | inr (m, e) ↦
            let (i, same) = In_of_find_id j m log e in
            (m, i, (v, ground (arith, keeps.project m v, eq_iff v.message_id j)))
      ];
    }

    project_phase-lookup :
        (substrate : Substrate) (id : MessageId)
        → HashMap.get id (project_phase substrate ctx log) ≡ projection_of ctx log id
    unfolding project_phase per_message
    project_phase-lookup substrate id = rw map-id (
        stage-lookup substrate (process_message ctx) (λ p. p.message_id) projected
          process_message-writes (projection_of ctx log) log project-Writes id)

  module _ (keeps : KeepsKeys ctx) (log : List MessageEnvelope) (substrate : Substrate) where
    scope_phase-lookup :
        (c : ConversationId)
        → HashMap.get c (scope_phase substrate ctx log (projection_of ctx log)) ≡ scope_of ctx log c
    unfolding scope_phase scope_of session_of build_scope
    scope_phase-lookup =
        conversation-lookup substrate (build_scope (projection_of ctx log) ctx) scope_request
          (λ s. s.conversation)
          (λ r. ctx.scope r.conversation (resolve (projection_of ctx log) r.messages)) (λ r m. refl)
          (λ c is. keeps.scope c (resolve (projection_of ctx log) is)) log

    warmup_phase-lookup :
        (c : ConversationId)
        → HashMap.get c (warmup_phase substrate ctx log (projection_of ctx log) (scope_of ctx log))
          ≡ warmup_of ctx log c
    unfolding warmup_phase warmup_of session_of build_warmup
    warmup_phase-lookup =
        conversation-lookup substrate (build_warmup (projection_of ctx log) (scope_of ctx log) ctx)
          warmup_request (λ d. d.conversation)
          (λ r.
            ctx.build_warmup r.conversation (scope_of ctx log r.conversation)
              (resolve (projection_of ctx log) r.messages))
          (λ r m. refl) (λ c is. keeps.warmup c _ _) log

    skill_phase-lookup :
        (t : Topic)
        → HashMap.get t (skill_phase substrate ctx log (projection_of ctx log)) ≡ skill_of ctx log t
    unfolding skill_phase skill_of build_skill
    skill_phase-lookup =
        global-lookup substrate (build_skill (projection_of ctx log) ctx) (λ o. o.topic)
          (λ r. (ctx.build_skills (contributions (projection_of ctx log) r.entries)).ownerships)
          (λ r m. refl) (skill_request log)

    developer_phase-lookup :
        (c : ConversationId)
        → HashMap.get c
            (developer_phase substrate ctx log (projection_of ctx log) (skill_of ctx log))
          ≡ developers_of ctx log c
    unfolding developer_phase developers_of build_developer_snapshot
    developer_phase-lookup =
        conversation-lookup substrate
          (build_developer_snapshot (skill_of ctx log) (projection_of ctx log) ctx)
          (developer_request log) (λ d. d.conversation)
          (λ r.
            ctx.snapshot r.conversation r.participants
              (collect_ownerships (skill_of ctx log) (projection_of ctx log) r.messages ([], [])).1)
          (λ r m. refl) (λ c is. keeps.snapshot c _ _) log

    abbrev hint_from : MessageId → Option (RoutingHint R)
    hint_from id = hint_for ctx log (projection_of ctx log id)

    hint_messages-writes :
        (is : List MessageId) (s : HashMap MessageId (RoutingHint R))
        → hint_messages (projection_of ctx log) (skill_of ctx log) ctx is s
          ≡ write_all (λ h. h.message_id) s (filter_map hint_from is)
    unfolding hint_messages
    hint_messages-writes [] s = refl
    hint_messages-writes (id ∷ is) s = elim (Option-cases (projection_of ctx log id)) [
      | inl e ↦ rw e (hint_messages-writes is s)
      | inr (p, e) ↦ rw e (hint_messages-writes is _)
    ]

    -- The projection that an id finds carries the id.
    projection_of-key :
        (id : MessageId) (p : Projection R) → projection_of ctx log id ≡ some p → p.message_id ≡ id
    unfolding projection_of
    projection_of-key id p h = elim (Option-cases (find_id id log)) [
      | inl e ↦ absurd (cc)
      | inr (m, e) ↦ keeps.project m p (ground arith) ∙ (In_of_find_id id m log e).1
    ]

    last_write-hints :
        (j : MessageId) (is : List MessageId)
        → last_write (λ (h : RoutingHint R). h.message_id) j (filter_map hint_from is)
          ≡ (if contains j is then hint_of ctx log j else none)
    unfolding hint_of
    last_write-hints j [] = refl
    last_write-hints j (id ∷ is) = elim (Option-cases (projection_of ctx log id)) [
      | inl e ↦ ground (arith, e, last_write-hints j is, eq_iff id j)
      | inr (p, e) ↦ ground (
        arith,
        e,
        last_write-hints j is,
        eq_iff id j,
        projection_of-key id p e,
        keeps.hint p (filter_map (skill_of ctx log) p.topics),
      )
    ]

    hint_of_logged :
        (j : MessageId)
        → (if contains j (ids log) then hint_of ctx log j else none) ≡ hint_of ctx log j
    unfolding hint_of projection_of
    hint_of_logged j = ground (arith, contains-ids-find_id j log)

    hint_phase-lookup :
        (j : MessageId)
        → HashMap.get j (hint_phase substrate ctx log (projection_of ctx log) (skill_of ctx log))
          ≡ hint_of ctx log j
    unfolding hint_phase build_routing_hint
    hint_phase-lookup j =
        global-lookup substrate (build_routing_hint (projection_of ctx log) (skill_of ctx log) ctx)
          (λ h. h.message_id) (λ r. filter_map hint_from r.messages)
          (λ r m. hint_messages-writes r.messages m) (hint_request log) j
        ∙ last_write-hints j (map (λ m. m.id) log)
        ∙ hint_of_logged j

  -- Whatever the substrate delivers, in whatever order and however often, a replay of a log in which
  -- each id stands once leaves six stores that answer every lookup as the log and the ports
  -- determine, if the ports answer under the keys that they were asked about.
  pub run_phases-Denotes :
      (keeps : KeepsKeys ctx) (log : List MessageEnvelope) (substrate : Substrate)
      → Nodup (ids log)
      → Denotes ctx log (run_phases substrate ctx log)
  unfolding run_phases
  run_phases-Denotes keeps log substrate unique =
      let found : (id : MessageId)
          → HashMap.get id (project_phase substrate ctx log) ≡ projection_of ctx log id =
        project_phase-lookup keeps log unique substrate in
      let p : (λ id. HashMap.get id (project_phase substrate ctx log)) ≡ projection_of ctx log =
        fun_ext found in
      let scopes : (λ c. HashMap.get c (scope_phase substrate ctx log (projection_of ctx log)))
          ≡ scope_of ctx log =
        fun_ext (scope_phase-lookup keeps log substrate) in
      let skills : (λ t. HashMap.get t (skill_phase substrate ctx log (projection_of ctx log)))
          ≡ skill_of ctx log =
        fun_ext (skill_phase-lookup keeps log substrate) in
      record {
        projections = found;
        scopes = λ c. rw p (scope_phase-lookup keeps log substrate c);
        warmups = λ c. rw (p, scopes) (warmup_phase-lookup keeps log substrate c);
        skills = λ t. rw p (skill_phase-lookup keeps log substrate t);
        hints = λ j. rw (p, skills) (hint_phase-lookup keeps log substrate j);
        developers = λ c. rw (p, skills) (developer_phase-lookup keeps log substrate c);
      }
