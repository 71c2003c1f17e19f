-- ===== src/Worker/RoutedWork/Once.antt =====
-- The routing job of crates/mirrorlane-worker/src/lib.rs with the consumer of routed_work.rs: what a run,
-- and a retry of it, leaves queued.
use mirrorlane.Base.{
  ◌≡◌, refl, sym, ap, ◌∙◌, subst, inl, inr, true, Option, none, some, List, [], ◌∷◌, ◌==◌,
  Bool-cases, Option-cases, if◌then◌else◌,
}
use mirrorlane.Base.HashMap
use mirrorlane.Base.Lists.{In, here, there}
use mirrorlane.Core.Message.{MessageId}
use mirrorlane.Core.Projection.{Projection}
use mirrorlane.Core.Routing.{
  RoutingDecision, ConsumerKind, worklane_job, consumer_kind_eq, Consumer, ConsumerError,
  ConsumerRegistry, Outcome, ok, err, register, dispatch, RoutingRequest,
}
use mirrorlane.Worker.Composition.{HandlerResult, done, failed, panicked}
use mirrorlane.Worker.Jobs.{Lookup, Router, RouteState, route_one, and_then, route_messages, route}
use mirrorlane.Worker.RoutedWork.{EnqueueUnique, consume_job}
use mirrorlane.Worker.RoutedWork.Unique.{
  KeepsUnique, OneEach, queued, Advances, Advances-trans, same_jobs-Advances, consume_job-Advances,
}

module _ {R World : Type 0} (consumers : ConsumerRegistry R World) (d : RoutingDecision)
    (p : Projection R) (w : World) where
  dispatch-none : HashMap.get d.target consumers ≡ none → dispatch consumers d p w ≡ (ok, w)
  unfolding dispatch
  dispatch-none h = rw (h, dispatch) refl

  dispatch-some :
      (c : Consumer R World)
      → HashMap.get d.target consumers ≡ some c
      → dispatch consumers d p w ≡ c d p w
  unfolding dispatch
  dispatch-some c h = rw (h, dispatch) refl

module _ {R World : Type 0} (enqueue_unique : EnqueueUnique R World)
    (queue : KeepsUnique enqueue_unique) (others : ConsumerRegistry R World) where
  -- The consumers of a routing job: this one, over others
  abbrev pub consumers : ConsumerRegistry R World
  consumers = register worklane_job (consume_job enqueue_unique) others

  -- The others queue nothing on the lane.
  abbrev pub OthersKeepJobs : Type 0
  OthersKeepJobs =
      (kind : ConsumerKind) (c : Consumer R World)
      → HashMap.get kind others ≡ some c
      → (d : RoutingDecision) (p : Projection R) (w : World) → queue.jobs (c d p w).1 ≡ queue.jobs w

  get-consumers :
      (kind : ConsumerKind)
      → HashMap.get kind consumers ≡ (
          if worklane_job == kind
          then some (consume_job enqueue_unique)
          else HashMap.get kind others)
  unfolding register
  get-consumers kind = HashMap.get-insert worklane_job kind (consume_job enqueue_unique) others

  module _ (keep : OthersKeepJobs) where
    dispatch-Advances :
        (d : RoutingDecision) (p : Projection R) (w : World)
        → OneEach (queue.jobs w)
        → Advances enqueue_unique queue w (dispatch consumers d p w).1
          × ((dispatch consumers d p w).0 ≡ ok
              → d.target ≡ worklane_job
              → queued enqueue_unique queue d.message_id (dispatch consumers d p w).1 ≡ true)
    dispatch-Advances d p w each = elim (Bool-cases (worklane_job == d.target)) [
      | inl this ↦
          let (advances, there_is) = consume_job-Advances enqueue_unique queue d p w each in
          rw
            (dispatch-some consumers d p w (consume_job enqueue_unique)
              (rw (get-consumers d.target, this) refl))
            (advances, λ h k. there_is h)
      | inr other ↦ elim (Option-cases (HashMap.get d.target others)) [
        | inl no_consumer ↦
            rw (dispatch-none consumers d p w (rw (get-consumers d.target, other) no_consumer))
              (same_jobs-Advances enqueue_unique queue w w refl, λ h k. absurd (cc))
        | inr (c, is_c) ↦
            rw (dispatch-some consumers d p w c (rw (get-consumers d.target, other) is_c)) (
              same_jobs-Advances enqueue_unique queue w (c d p w).1 (keep d.target c is_c d p w),
              λ h k. absurd (cc),
            )
      ]
    ]

    module _ (projections : Lookup MessageId (Projection R)) (router : Router R) where
      -- The work of every message of a list that is routed here is queued.
      abbrev pub AllQueued : List MessageId → World → Type 0
      AllQueued ids w =
          (id : MessageId) (p : Projection R)
          → In id ids
          → projections id ≡ some p
          → (router p).0.target ≡ worklane_job
          → queued enqueue_unique queue (router p).0.message_id w ≡ true

      route_one-world :
          (p : Projection R) (s : RouteState World) (x : Outcome ConsumerError × World)
          → dispatch consumers (router p).0 p s.world ≡ x
          → ((route_one projections router consumers p s).1.world ≡ x.1)
            × ((route_one projections router consumers p s).0 ≡ done → x.0 ≡ ok)
      unfolding route_one
      route_one-world p s (ok, w) h = rw h (refl, λ k. refl)
      route_one-world p s (err e, w) h = rw h (refl, λ k. absurd (cc))

      route_one-Advances :
          (p : Projection R) (s : RouteState World)
          → OneEach (queue.jobs s.world)
          → let r = route_one projections router consumers p s in
            Advances enqueue_unique queue s.world r.1.world
            × (r.0 ≡ done
                → (router p).0.target ≡ worklane_job
                → queued enqueue_unique queue (router p).0.message_id r.1.world ≡ true)
      route_one-Advances p s each =
          let (same, returned) =
            route_one-world p s (dispatch consumers (router p).0 p s.world) refl in
          let (advances, there_is) = dispatch-Advances (router p).0 p s.world each in
          (
            subst (Advances enqueue_unique queue s.world) (sym same) advances,
            λ h k.
                subst (λ w. queued enqueue_unique queue (router p).0.message_id w ≡ true) (sym same)
                  (there_is (returned h) k),
          )

      and_then-Advances :
          (r : HandlerResult × RouteState World)
          (rest : RouteState World → HandlerResult × RouteState World) (w : World)
          → OneEach (queue.jobs w)
          → Advances enqueue_unique queue w r.1.world
          → ((s : RouteState World)
              → OneEach (queue.jobs s.world)
              → Advances enqueue_unique queue s.world (rest s).1.world)
          → Advances enqueue_unique queue w (and_then projections router consumers r rest).1.world
      and_then-Advances (done, s) rest w each first later =
          Advances-trans enqueue_unique queue w s.world (rest s).1.world first
            (later s (first each).0)
      and_then-Advances (failed e, s) rest w each first later = first
      and_then-Advances (panicked, s) rest w each first later = first

      and_then-done :
          (r : HandlerResult × RouteState World)
          (rest : RouteState World → HandlerResult × RouteState World)
          → (and_then projections router consumers r rest).0 ≡ done
          → (r.0 ≡ done) × (and_then projections router consumers r rest ≡ rest r.1)
      and_then-done (done, s) rest h = (refl, refl)
      and_then-done (failed e, s) rest h = absurd (cc)
      and_then-done (panicked, s) rest h = absurd (cc)

      route_messages-Advances :
          (ids : List MessageId) (s : RouteState World)
          → OneEach (queue.jobs s.world)
          → Advances enqueue_unique queue s.world
              (route_messages projections router consumers ids s).1.world
      unfolding route_messages
      route_messages-Advances [] s each =
          same_jobs-Advances enqueue_unique queue s.world s.world refl
      route_messages-Advances (id ∷ ids) s each = elim (Option-cases (projections id)) [
        | inl e ↦ rw (e, route_messages) (route_messages-Advances ids s each)
        | inr (p, e) ↦
            rw (e, route_messages)
              (and_then-Advances (route_one projections router consumers p s)
                (route_messages projections router consumers ids) s.world each
                (route_one-Advances p s each).0 (route_messages-Advances ids))
      ]

      some_same : {p q : Projection R} {o : Option (Projection R)} → o ≡ some p → o ≡ some q → p ≡ q
      some_same h k = cc

      -- What the first message and the rest have queued, the whole list has.
      AllQueued-cons :
          (id : MessageId) (ids : List MessageId) (p : Projection R) (w : World)
          → projections id ≡ some p
          → ((router p).0.target ≡ worklane_job
              → queued enqueue_unique queue (router p).0.message_id w ≡ true)
          → AllQueued ids w
          → AllQueued (id ∷ ids) w
      AllQueued-cons id ids p w e first rest j q (here same) is_q =
          let same_p = some_same (subst (λ i. projections i ≡ some p) (sym same) e) is_q in
          subst
            (λ x.
              (router x).0.target ≡ worklane_job
              → queued enqueue_unique queue (router x).0.message_id w ≡ true)
            same_p first
      AllQueued-cons id ids p w e first rest j q (there i) is_q = rest j q i is_q

      AllQueued-skip :
          (id : MessageId) (ids : List MessageId) (w : World)
          → projections id ≡ none
          → AllQueued ids w
          → AllQueued (id ∷ ids) w
      AllQueued-skip id ids w e rest j q (here same) is_q =
          absurd (cc (subst (λ i. projections i ≡ none) (sym same) e))
      AllQueued-skip id ids w e rest j q (there i) is_q = rest j q i is_q

      route_messages-AllQueued :
          (ids : List MessageId) (s : RouteState World)
          → OneEach (queue.jobs s.world)
          → (route_messages projections router consumers ids s).0 ≡ done
          → AllQueued ids (route_messages projections router consumers ids s).1.world
      unfolding route_messages
      route_messages-AllQueued [] s each h = λ id p i is_p target. elim i [ ]
      route_messages-AllQueued (id ∷ ids) s each h = elim (Option-cases (projections id)) [
        | inl e ↦
            rw (e, route_messages)
              (AllQueued-skip id ids _ e
                (route_messages-AllQueued ids s each (rw (e, route_messages) at h)))
        | inr (p, e) ↦
            let one = route_one projections router consumers p s in
            let rest = route_messages projections router consumers ids in
            let (one_done, same) = and_then-done one rest (rw (e, route_messages) at h) in
            let (advances, first) = route_one-Advances p s each in
            let (each', kept) = advances each in
            let (each'', later) = route_messages-Advances ids one.1 each' each' in
            rw (e, route_messages)
              (subst (λ (r : HandlerResult × RouteState World). AllQueued (id ∷ ids) r.1.world)
                (sym same)
                (AllQueued-cons id ids p (rest one.1).1.world e
                  (λ target. later (router p).0.message_id (first one_done target))
                  (route_messages-AllQueued ids one.1 each' (
                    ap (λ (r : HandlerResult × RouteState World). r.0) (sym same)
                    ∙ (rw (e, route_messages) at h)))))
      ]

      -- Where Worklane enqueues uniquely by key and the other consumers leave the lane alone: from a queue with
      -- at most one live job for a message, a routing job, however it ends, leaves one with at most one, and
      -- loses none; and where it returns, each message of the request with a projection that is routed to a
      -- job has a live job. So it is with a retry of it.
      pub route-OneEach :
          (request : RoutingRequest) (s : RouteState World)
          → OneEach (queue.jobs s.world)
          → OneEach (queue.jobs (route projections router consumers request s).1.world)
            × ((m : MessageId)
                → queued enqueue_unique queue m s.world ≡ true
                → queued enqueue_unique queue m
                    (route projections router consumers request s).1.world
                  ≡ true)
            × ((route projections router consumers request s).0 ≡ done
                → AllQueued request.messages (route projections router consumers request s).1.world)
      unfolding route
      route-OneEach request s each =
          let (each', kept) = route_messages-Advances request.messages s each each in
          (each', kept, route_messages-AllQueued request.messages s each)
