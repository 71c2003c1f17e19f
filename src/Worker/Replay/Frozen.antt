-- ===== src/Worker/Replay/Frozen.antt =====
-- The first stage of crates/mirrorlane-worker/src/replay.rs over a projector behind a cache, as
-- crates/mirrorlane-cli/src/commands.rs wires a model.
use mirrorlane.Base.{
  ◌≡◌, refl, sym, ap, ◌∙◌, List, [], ◌∷◌, String, inl, inr, Option-cases, string_eq,
}
use mirrorlane.Base.HashMap
use mirrorlane.Base.Lists.{foldl}
use mirrorlane.Core.Message.{MessageId, MessageEnvelope}
use mirrorlane.Core.Projection.{Projection}
use mirrorlane.Core.Store.{InMemoryProjectionStore, get_projection}
use mirrorlane.Runtime.Cache.{Cached, cached_step}
use mirrorlane.Runtime.Cache.Laws.{CacheLaws}
use mirrorlane.Runtime.Cache.Frozen.{frozen}
use mirrorlane.Worker.Composition.{Substrate, run_stage}
use mirrorlane.Worker.Jobs.{StrategyContext, process_message, process_message_step}
use mirrorlane.Worker.Jobs.Frozen.{
  deliver_each, project_each, upsert_some, at_end, deliver_each-run_each, deliver_each-Agree,
}

module _ {R S World : Type 0} (key : MessageEnvelope → String)
    (c : Cached MessageEnvelope (Projection R) S World) (laws : CacheLaws c.cache) where
  process_message-upsert :
      (ctx : StrategyContext R) (m : MessageEnvelope) (store : InMemoryProjectionStore R)
      → (process_message ctx m store).1 ≡ upsert_some key c laws (ctx.project m) store
  unfolding process_message
  process_message-upsert ctx m store = elim (Option-cases (ctx.project m)) [
    | inl e ↦ rw (e, process_message) refl
    | inr (p, e) ↦ rw (e, process_message) refl
  ]

  foldl-project_each :
      (ctx : StrategyContext R) (ds : List MessageEnvelope) (store : InMemoryProjectionStore R)
      → foldl (λ t m. (process_message ctx m t).1) store ds
        ≡ project_each key c laws ctx.project ds store
  unfolding project_each
  foldl-project_each ctx [] store = refl
  foldl-project_each ctx (m ∷ ds) store =
      ap (λ t. foldl (λ u n. (process_message ctx n u).1) t ds) (process_message-upsert ctx m store)
      ∙ foldl-project_each ctx ds (upsert_some key c laws (ctx.project m) store)

  -- A projection stage over a projector behind a cache that keeps the laws, whatever the inner projector
  -- does, with panics and retries, and whatever deliveries it sees, leaves for each message what the stage
  -- over a function leaves: the function of the cache as it is at the stage's end.
  pub run_stage-frozen :
      (substrate : Substrate) (ctx : StrategyContext R) (log : List MessageEnvelope)
      (store : InMemoryProjectionStore R) (s : S × World) (j : MessageId)
      → let (left, t) =
          run_stage substrate (process_message_step (cached_step key c)) log (store, s) in
        get_projection j left
        ≡ get_projection j (
            run_stage substrate
              (process_message (record ctx { project = λ m. frozen key c m t }))
              log
              store)
  unfolding run_stage deliver_each
  run_stage-frozen substrate ctx log store s j =
      let ds = substrate.deliver MessageEnvelope log in
      deliver_each-Agree key c laws ds store store s (λ i. inl refl) j
      ∙ (ap (λ t. HashMap.get j t)
            (sym (foldl-project_each (record ctx { project = at_end key c laws ds s }) ds store))
          ∙ ap
              (λ (w : S × World). HashMap.get j (
                foldl
                  (λ t m. (process_message (record ctx { project = λ n. frozen key c n w }) m t).1)
                  store ds))
              (sym (deliver_each-run_each key c laws ds store s)))
