-- ===== src/Cli/Projector/Durable.antt =====
-- What the durable cache behind the projector of crates/mirrorlane-cli/src/commands.rs guarantees from one
-- command to the next: a projection that was made once is read back as JSON keeps it, and the model is
-- not called again.
use mirrorlane.Base.{
  String, ◌≡◌, refl, ap, Bool, true, false, Option, none, some, List, [], ◌∷◌, inl, inr, ◌⊎◌, sym,
  subst, Option-cases,
}
use mirrorlane.Base.Float.{Float}
use mirrorlane.Base.Lists.{foldl}
use mirrorlane.Base.Result.{Result, ok, err, some-inj}
use mirrorlane.Cli.Broker.{Env}
use mirrorlane.Cli.Config.{Provider}
use mirrorlane.Cli.Projector.{
  LlmSettings, Substrates, Opening, Disk, ProjectorStep, pruned, open_cache, llm_projector,
  durable_projector, projector_for,
}
use mirrorlane.Core.Message.{MessageEnvelope}
use mirrorlane.Core.Projection.{Projection}
use mirrorlane.Llm.{LlmProjector, cache_version, llm_step}
use mirrorlane.Provider.Caching.{cache_key, caching_projector}
use mirrorlane.Provider.Mock.{mock_projector}
use mirrorlane.Runtime.Cache.{Cached, cached_run, store_output}
use mirrorlane.Runtime.Cache.Frozen.{frozen, run_each, cached_run-hit, run_each-keeps}
use mirrorlane.Runtime.Cache.Laws.{KeepsEntries}
use mirrorlane.Storage.Projections.{ProjectionTable, put_cached, sqlite_projection_cache}
use mirrorlane.Storage.Projections.Durable.{
  cached-put_self, sqlite_projection_cache-KeepsEntries, get_cached-prune,
}

ok_pair :
    {A S : Type 0} {a b : A} {s t : S}
    → ◌≡◌ {A = Result String A × S} (ok a, s) (ok b, t)
    → (a ≡ b) × (s ≡ t)
ok_pair h = (cc, cc)

err_pair :
    {A S : Type 0} {e : String} {b : A} {s t : S}
    → ◌≡◌ {A = Result String A × S} (err e, s) (ok b, t)
    → ⊥
err_pair h = cc

module _ {R P World : Type 0} ⦃f : Float R⦄ (sub : Substrates R P World) where
  -- The state after a projector ran over messages, whether or not it panicked on some
  unfoldable pub run_messages : ProjectorStep sub → List MessageEnvelope → Disk sub → Disk sub
  run_messages p messages disk = foldl (λ d m. (p.run m d).1) disk messages

  -- The decorator in a durable projector
  abbrev cached :
      LlmProjector World → Cached MessageEnvelope (Projection R) (ProjectionTable P) World
  cached p = record {
    inner = llm_step sub.projection_json sub.digest_text p;
    cache = sqlite_projection_cache sub.write sub.read;
    version = cache_version sub.digest_text p;
  }

  open_cache-inv :
      (opening : Opening) (o : Option (LlmProjector World)) (p : ProjectorStep sub)
      (disk opened : Disk sub)
      → open_cache sub opening o disk ≡ (ok p, opened)
      → ((o ≡ none) × (mock_projector sub.lower ≡ p) × (disk ≡ opened))
        ⊎ ((l : LlmProjector World) × (o ≡ some l)
            × (durable_projector sub l ≡ p)
            × (pruned sub opening.prunes (cache_version sub.digest_text l) disk ≡ opened))
  open_cache-inv opening none p disk opened e =
      let (same, rest) = ok_pair e in inl (refl, same, rest)
  open_cache-inv opening (some l) p disk opened e = elim (Option-cases opening.open_error) [
    | inl none_there ↦ let (same, rest) = ok_pair (rw none_there at e) in inr (l, refl, same, rest)
    | inr (text, failed) ↦ absurd (err_pair (rw failed at e))
  ]

  -- A command under these settings: it opens its projector, and runs it over messages.
  abbrev run_opened : List MessageEnvelope → Result String (ProjectorStep sub) × Disk sub → Disk sub
  run_opened messages (err e, disk) = disk
  run_opened messages (ok p, disk) = run_messages p messages disk

  unfoldable pub run_commands :
      Env → LlmSettings → Provider → List (Opening × List MessageEnvelope) → Disk sub → Disk sub
  run_commands env llm provider commands disk =
      foldl (λ d c. run_opened c.1 (projector_for sub env llm c.0 provider d)) disk commands

  -- What the table holds for a message under a projector's version
  abbrev held : LlmProjector World → MessageEnvelope → Disk sub → Option (Projection R)
  held l m disk = frozen (cache_key sub.digest) (cached l) m disk

  keeps : KeepsEntries (sqlite_projection_cache sub.write sub.read)
  keeps = sqlite_projection_cache-KeepsEntries sub.write sub.read

  -- What a later command may find: the projection itself, or what JSON reads back of it
  abbrev pub KeptAs : Projection R → Projection R → Type 0
  KeptAs out kept = (kept ≡ out) ⊎ (kept ≡ sub.read (sub.write out))

  stored-held :
      (l : LlmProjector World) (m : MessageEnvelope) (out : Projection R)
      (r : Option (Projection R) × World) (table : ProjectionTable P) (after : Disk sub)
      → store_output
          (cached l).cache
          (cached l).inner.kind
          (cached l).version
          (cache_key sub.digest m)
          r
          table
        ≡ (some out, after)
      → held l m after ≡ some (sub.read (sub.write out))
  unfolding store_output sqlite_projection_cache
  stored-held l m out (none, w) table after h = absurd (cc (ap (λ x. x.0) h))
  stored-held l m out (some o, w) table after h =
      subst (λ d. held l m d ≡ some (sub.read (sub.write out))) (ap (λ x. x.1) h)
        (subst
          (λ p.
            held l m (
              put_cached sub.write sub.read (cached l).inner.kind (cached l).version
                  (cache_key sub.digest m) o table,
              w,
            )
            ≡ some (sub.read (sub.write p)))
          (some-inj (ap (λ x. x.0) h))
          (cached-put_self sub.write sub.read (cached l).inner.kind (cached l).version
            (cache_key sub.digest m) o table))

  -- A run that makes a projection leaves one in the table.
  run-held :
      (l : LlmProjector World) (m : MessageEnvelope) (out : Projection R) (disk after : Disk sub)
      → (durable_projector sub l).run m disk ≡ (some out, after)
      → (kept : Projection R) × KeptAs out kept × (held l m after ≡ some kept)
  unfolding durable_projector caching_projector cached_run
  run-held l m out (table, w) after h = elim (Option-cases (held l m (table, w))) [
    | inr (o, e) ↦
        let hit = rw (e, cached_run) at h in
        (
          o,
          inl (some-inj (ap (λ x. x.0) hit)),
          subst (λ d. held l m d ≡ some o) (ap (λ x. x.1) hit) e,
        )
    | inl e ↦
        let miss = rw (e, cached_run) at h in
        (
          sub.read (sub.write out),
          inr refl,
          stored-held l m out ((cached l).inner.run m w) table after miss,
        )
  ]

  held-run :
      (l : LlmProjector World) (m : MessageEnvelope) (kept : Projection R) (disk : Disk sub)
      → held l m disk ≡ some kept
      → (durable_projector sub l).run m disk ≡ (some kept, disk)
  unfolding durable_projector caching_projector
  held-run l m kept disk h = cached_run-hit (cache_key sub.digest) (cached l) keeps m kept disk h

  messages-held :
      (l : LlmProjector World) (m : MessageEnvelope) (kept : Projection R)
      (ms : List MessageEnvelope) (disk : Disk sub)
      → held l m disk ≡ some kept
      → held l m (run_messages (durable_projector sub l) ms disk) ≡ some kept
  unfolding run_messages run_each durable_projector caching_projector
  messages-held l m kept ms disk h =
      run_each-keeps (cache_key sub.digest) (cached l) keeps ms (cached l).inner.kind
        (cached l).version (cache_key sub.digest m) kept disk h

  pruned-held :
      (l : LlmProjector World) (m : MessageEnvelope) (kept : Projection R) (prunes : Bool)
      (disk : Disk sub)
      → held l m disk ≡ some kept
      → held l m (pruned sub prunes (cache_version sub.digest_text l) disk) ≡ some kept
  unfolding sqlite_projection_cache
  pruned-held l m kept true (table, w) h =
      rw
        (get_cached-prune sub.write sub.read (llm_step sub.projection_json sub.digest_text l).kind
          (cache_version sub.digest_text l) (cache_key sub.digest m) table)
        h
  pruned-held l m kept false (table, w) h = h

  opened-held :
      (l : LlmProjector World) (m : MessageEnvelope) (kept : Projection R) (o : Opening)
      (ms : List MessageEnvelope) (disk : Disk sub)
      → held l m disk ≡ some kept
      → held l m (run_opened ms (open_cache sub o (some l) disk)) ≡ some kept
  opened-held l m kept o ms disk h = elim (Option-cases o.open_error) [
    | inl none_there ↦ rw none_there (
        messages-held l m kept ms (pruned sub o.prunes (cache_version sub.digest_text l) disk)
          (pruned-held l m kept o.prunes disk h))
    | inr (text, failed) ↦ rw failed h
  ]

  -- No command under the settings changes what the table holds.
  commands-held :
      (env : Env) (llm : LlmSettings) (provider : Provider) (l : LlmProjector World)
      (m : MessageEnvelope) (kept : Projection R)
      → llm_projector sub env llm provider ≡ some l
      → (cs : List (Opening × List MessageEnvelope)) (disk : Disk sub) → held l m disk ≡ some kept
      → held l m (run_commands env llm provider cs disk) ≡ some kept
  unfolding run_commands projector_for
  commands-held env llm provider l m kept is_l [] disk h = h
  commands-held env llm provider l m kept is_l ((o, ms) ∷ cs) disk h =
      commands-held env llm provider l m kept is_l cs
        (run_opened ms (projector_for sub env llm o provider disk))
        (rw is_l (opened-held l m kept o ms disk h))

  -- A later command, of the settings of a projector
  reopened-run :
      (o : Opening) (l : LlmProjector World) (q : ProjectorStep sub) (m : MessageEnvelope)
      (kept : Projection R) (disk reopened : Disk sub)
      → open_cache sub o (some l) disk ≡ (ok q, reopened)
      → held l m disk ≡ some kept
      → q.run m reopened ≡ (some kept, reopened)
  reopened-run o l q m kept disk reopened opens h =
      elim (open_cache-inv o (some l) q disk reopened opens) [
        | inl (none_there, is_q, same) ↦ absurd (cc)
        | inr (l', some_l', is_q, same) ↦
            let is_l : l ≡ l' = some-inj some_l' in
            subst (λ s. s.run m reopened ≡ (some kept, reopened)) is_q
              (subst (λ x. (durable_projector sub x).run m reopened ≡ (some kept, reopened)) is_l
                (held-run l m kept reopened (
                  subst (λ d. held l m d ≡ some kept) same
                    (subst
                      (λ x.
                        held l m (pruned sub o.prunes (cache_version sub.digest_text x) disk)
                        ≡ some kept)
                      is_l (pruned-held l m kept o.prunes disk h)))))
      ]

  reopened-mock :
      (o : Opening) (q : ProjectorStep sub) (m : MessageEnvelope) (out : Projection R)
      (opened after disk reopened : Disk sub)
      → open_cache sub o none disk ≡ (ok q, reopened)
      → (mock_projector sub.lower).run m opened ≡ (some out, after)
      → q.run m reopened ≡ (some out, reopened)
  reopened-mock o q m out opened after disk reopened opens made =
      subst (λ s. s.run m reopened ≡ (some out, reopened)) (ok_pair opens).0
        (rw (ap (λ r. r.0) made) refl)

  -- Once a command has made a projection of a message, one projection is fixed, the one made or what JSON
  -- reads back of it, and every later command under the same settings makes that one of the
  -- message, and changes nothing: it does not call the model. In between, any number of commands
  -- under these settings may have run over any messages, opened or not, panicked or not, pruning
  -- or not. (A command under other settings that prunes drops the row.)
  pub projector_for-durable :
      (env : Env) (llm : LlmSettings) (provider : Provider) (first : Opening)
      (p : ProjectorStep sub) (m : MessageEnvelope) (out : Projection R)
      (disk opened after : Disk sub)
      → projector_for sub env llm first provider disk ≡ (ok p, opened)
      → p.run m opened ≡ (some out, after)
      → (kept : Projection R) × KeptAs out kept
        × ((others : List MessageEnvelope) (commands : List (Opening × List MessageEnvelope))
              (later : Opening) (q : ProjectorStep sub) (reopened : Disk sub)
            → projector_for sub env llm later provider
                (run_commands env llm provider commands (run_messages p others after))
              ≡ (ok q, reopened)
            → q.run m reopened ≡ (some kept, reopened))
  unfolding projector_for
  projector_for-durable env llm provider first p m out disk opened after once made =
      elim (open_cache-inv first (llm_projector sub env llm provider) p disk opened once) [
        | inl (mocked, is_p, same) ↦ (
          out,
          inl refl,
          λ others commands later q reopened opens.
              reopened-mock later q m out opened after
                (run_commands env llm provider commands (run_messages p others after)) reopened
                (rw mocked at opens)
                (subst (λ s. s.run m opened ≡ (some out, after)) (sym is_p) made),
        )
        | inr (l, is_l, is_p, same) ↦
            let (kept, kept_as, h) =
              run-held l m out opened after
                (subst (λ s. s.run m opened ≡ (some out, after)) (sym is_p) made) in
            (
              kept,
              kept_as,
              λ others commands later q reopened opens.
                  let between =
                    run_commands env llm provider commands (run_messages p others after) in
                  reopened-run later l q m kept between reopened
                    (subst (λ o. open_cache sub later o between ≡ (ok q, reopened)) is_l opens)
                    (commands-held env llm provider l m kept is_l commands
                      (run_messages p others after)
                      (subst (λ s. held l m (run_messages s others after) ≡ some kept) is_p
                        (messages-held l m kept others after h))),
            )
      ]
