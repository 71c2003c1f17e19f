-- ===== src/Worker/Jobs/Frozen.antt =====
-- The projection stage of crates/mirrorlane-worker/src/replay.rs over a projector behind a cache: it leaves
-- what the stage leaves over the projector as a function, the one that the cache has frozen at its end.
use text.Mathlib.TextEquality.{eq_iff}
use mirrorlane.Base.{
  String, ◌≡◌, ◌≢◌, refl, sym, ap, ◌∙◌, inl, inr, Option, none, some, List, [], ◌∷◌, arith,
  string_eq, ◌==◌, Bool-cases, Option-cases,
}
use mirrorlane.Base.HashMap
use mirrorlane.Base.Lists.{In, here, there, foldl}
use mirrorlane.Core.Message.{MessageId, MessageEnvelope}
use mirrorlane.Core.Projection.{Projection}
use mirrorlane.Core.Store.{InMemoryProjectionStore, upsert_projection}
use mirrorlane.Runtime.Cache.{Cached, cached_run, cached_step, store_output}
use mirrorlane.Runtime.Cache.Laws.{CacheLaws}
use mirrorlane.Runtime.Cache.Frozen.{frozen, run_each, cached_run-freezes, run_each-keeps}
use mirrorlane.Worker.Jobs.Agree.{Agree, Agree-both, Agree-neither, Agree-late}
use mirrorlane.Worker.Jobs.{process_message_step, upsert_output}

module _ {R S World : Type 0} (key : MessageEnvelope → String)
    (c : Cached MessageEnvelope (Projection R) S World) (laws : CacheLaws c.cache) where
  abbrev pub State : Type 0
  State = InMemoryProjectionStore R × (S × World)

  -- The deliveries of the stage, in turn
  unfoldable pub deliver_each : List MessageEnvelope → State → State
  deliver_each ds s = foldl (λ t m. (process_message_step (cached_step key c) m t).1) s ds

  -- The same with a projector that is a function
  abbrev pub upsert_some :
      Option (Projection R) → InMemoryProjectionStore R → InMemoryProjectionStore R
  upsert_some none store = store
  upsert_some (some p) store = upsert_projection p store

  unfoldable pub project_each :
      (MessageEnvelope → Option (Projection R))
      → List MessageEnvelope
      → InMemoryProjectionStore R
      → InMemoryProjectionStore R
  project_each project [] store = store
  project_each project (m ∷ ds) store = project_each project ds (upsert_some (project m) store)

  upsert_output-world :
      (store : InMemoryProjectionStore R) (r : Option (Projection R) × (S × World))
      → (upsert_output (cached_step key c) store r).1 ≡ (upsert_some r.0 store, r.1)
  upsert_output-world store (none, w) = refl
  upsert_output-world store (some p, w) = refl

  deliver_each-cons :
      (m : MessageEnvelope) (ds : List MessageEnvelope) (store : InMemoryProjectionStore R)
      (s : S × World)
      → deliver_each (m ∷ ds) (store, s)
        ≡ deliver_each ds (upsert_some (cached_run key c m s).0 store, (cached_run key c m s).1)
  unfolding deliver_each process_message_step cached_step
  deliver_each-cons m ds store s =
      ap (deliver_each ds) (upsert_output-world store (cached_run key c m s))

  -- The cache goes as it does by itself.
  pub deliver_each-run_each :
      (ds : List MessageEnvelope) (store : InMemoryProjectionStore R) (s : S × World)
      → (deliver_each ds (store, s)).1 ≡ run_each key c ds s
  unfolding run_each
  deliver_each-run_each [] store s = unfold deliver_each in refl
  deliver_each-run_each (m ∷ ds) store s =
      ap (λ (t : State). t.1) (deliver_each-cons m ds store s)
      ∙ deliver_each-run_each ds (upsert_some (cached_run key c m s).0 store)
          (cached_run key c m s).1

  store_output-none :
      (k v x : String) (r : Option (Projection R) × World) (s : S)
      → c.cache.get k v x s ≡ none
      → (store_output c.cache k v x r s).0 ≡ none
      → c.cache.get k v x (store_output c.cache k v x r s).1.0 ≡ none
  unfolding store_output
  store_output-none k v x (none, w) s e h = e
  store_output-none k v x (some p, w) s e h = absurd (cc)

  store_output-key :
      (k v x y : String) (r : Option (Projection R) × World) (s : S)
      → y ≢ x
      → c.cache.get k v y (store_output c.cache k v x r s).1.0 ≡ c.cache.get k v y s
  unfolding store_output
  store_output-key k v x y (none, w) s other = refl
  store_output-key k v x y (some p, w) s other = laws.get-put_key k v x y p s other

  -- A run that returns nothing leaves its input unfrozen.
  panic-unfrozen :
      (m : MessageEnvelope) (s : S × World)
      → (cached_run key c m s).0 ≡ none
      → frozen key c m (cached_run key c m s).1 ≡ none
  unfolding cached_run
  panic-unfrozen m (s, w) h = elim (Option-cases (c.cache.get c.inner.kind c.version (key m) s)) [
    | inl e ↦
        rw (e, cached_run)
          (store_output-none c.inner.kind c.version (key m) (c.inner.run m w) s e
            (rw (e, cached_run) at h))
    | inr (p, e) ↦ absurd (ground (arith, e, h))
  ]

  -- What a run of another input leaves unfrozen
  run-unfrozen :
      (m n : MessageEnvelope) (s : S × World)
      → key m ≢ key n
      → frozen key c m (cached_run key c n s).1 ≡ frozen key c m s
  unfolding cached_run
  run-unfrozen m n (s, w) other =
      elim (Option-cases (c.cache.get c.inner.kind c.version (key n) s)) [
        | inl e ↦
            rw (e, cached_run)
              (store_output-key c.inner.kind c.version (key n) (key m) (c.inner.run n w) s other)
        | inr (p, e) ↦ rw (e, cached_run) refl
      ]

  -- What a message is at the end of the deliveries
  abbrev pub at_end : List MessageEnvelope → S × World → MessageEnvelope → Option (Projection R)
  at_end ds s m = frozen key c m (run_each key c ds s)

  -- Where an input is unfrozen before the deliveries and frozen behind them, one of them has its key.
  frozen_since :
      (ds : List MessageEnvelope) (m : MessageEnvelope) (s : S × World) (p : Projection R)
      → frozen key c m s ≡ none
      → at_end ds s m ≡ some p
      → (n : MessageEnvelope) × In n ds × (key n ≡ key m)
  unfolding run_each
  frozen_since [] m s p e h = absurd (cc)
  frozen_since (n ∷ ds) m s p e h = elim (Bool-cases (key n == key m)) [
    | inl same ↦ (n, here refl, (eq_iff (key n) (key m)).0 same)
    | inr other ↦
        let apart : key m ≢ key n =
          λ q. absurd (cc (rw ((eq_iff (key n) (key m)).1 (sym q)) at other)) in
        let (n', i, same) =
          frozen_since ds m (cached_run key c n s).1 p (run-unfrozen m n s apart ∙ e) h in
        (n', there i, same)
  ]

  pub deliver_each-Agree :
      (ds : List MessageEnvelope) (store other : InMemoryProjectionStore R) (s : S × World)
      → Agree (at_end ds s) ds store other
      → (j : MessageId)
      → HashMap.get j (deliver_each ds (store, s)).0
        ≡ HashMap.get j (project_each (at_end ds s) ds other)
  unfolding run_each project_each
  deliver_each-Agree [] store other s agree j = elim (agree j) [
    | inl equal ↦ unfold deliver_each in equal
    | inr (n, i, q) ↦ elim i [ ]
  ]
  deliver_each-Agree (m ∷ ds) store other s agree j =
      let r = cached_run key c m s in
      let f = at_end ds r.1 in
      ap (λ (t : State). HashMap.get j t.0) (deliver_each-cons m ds store s)
      ∙ elim (Option-cases r.0) [
        | inr (p, e) ↦
            let kept : f m ≡ some p =
              run_each-keeps key c laws.get-put_other ds c.inner.kind c.version (key m) p r.1
                (cached_run-freezes key c laws m p s e) in
            rw (e, kept)
              (deliver_each-Agree ds (upsert_projection p store) (upsert_projection p other) r.1
                (Agree-both f m ds store other p kept agree) j)
        | inl e ↦ elim (Option-cases (f m)) [
          | inl never ↦
              rw (e, never)
                (deliver_each-Agree ds store other r.1
                  (Agree-neither f m ds store other never agree) j)
          | inr (p, later) ↦
              let (n, i, same) = frozen_since ds m r.1 p (panic-unfrozen m s e) later in
              let is_p : f n ≡ some p =
                ap (λ k. c.cache.get c.inner.kind c.version k (run_each key c ds r.1).0) same
                ∙ later in
              rw (e, later)
                (deliver_each-Agree ds store (upsert_projection p other) r.1
                  (Agree-late f m n ds store other p later i is_p agree) j)
        ]
      ]
