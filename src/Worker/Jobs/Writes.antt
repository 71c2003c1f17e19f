-- ===== src/Worker/Jobs/Writes.antt =====
-- What `RouteJob` of crates/mirrorlane-worker/src/lib.rs leaves in its stores.
use mirrorlane.Base.{
  ◌≡◌, refl, String, some, List, [], ◌∷◌, map, arith, string_eq, ◌⊎◌, Option-cases, inl, inr,
}
use mirrorlane.Base.HashMap
use mirrorlane.Base.HashMap.Writes.{write_all, last_write, or_else, get-write_all}
use mirrorlane.Core.Message.{MessageId}
use mirrorlane.Core.Projection.{Projection}
use mirrorlane.Core.Routing.{
  ConsumerKind, consumer_kind_eq, Consumer, RoutingDecision, RoutingTrace, RoutingRequest,
  ConsumerError, ConsumerRegistry, Outcome, ok, err, dispatch, show_consumer_error,
}
use mirrorlane.Core.Store.{upsert_routing, upsert_routing_trace}
use mirrorlane.Worker.Composition.{done, failed}
use mirrorlane.Worker.Jobs.{Lookup, Router, RouteState, resolve, route_one, route_messages, route}

module _ {R World : Type 0} (projections : Lookup MessageId (Projection R)) (router : Router R)
    (consumers : ConsumerRegistry R World) where
  -- What the router decides of the projections that are there, in the order of the messages
  abbrev pub decisions : List MessageId → List (RoutingDecision × RoutingTrace)
  decisions ids = map router (resolve projections ids)

  -- The state after a round whose dispatch left `w`
  abbrev routed : Projection R → RouteState World → World → RouteState World
  routed p s w = record s {
    traces = upsert_routing_trace (router p).1 s.traces;
    routes = upsert_routing (router p).0 s.routes;
    world = w;
  }

  route_one-cases :
      (p : Projection R) (s : RouteState World) (x : Outcome ConsumerError × World)
      → dispatch consumers (router p).0 p s.world ≡ x
      → (route_one projections router consumers p s ≡ (done, routed p s x.1))
        ⊎ ((e : String) × (route_one projections router consumers p s ≡ (failed e, routed p s x.1)))
  unfolding route_one
  route_one-cases p s (ok, w) h = inl (rw h refl)
  route_one-cases p s (err e, w) h = inr (show_consumer_error e, rw h refl)

  route_messages-done :
      (ids : List MessageId) (s : RouteState World)
      → (route_messages projections router consumers ids s).0 ≡ done
      → ((route_messages projections router consumers ids s).1.routes
          ≡ write_all (λ d. d.message_id) s.routes (map (λ d. d.0) (decisions ids)))
        × ((route_messages projections router consumers ids s).1.traces
            ≡ write_all (λ t. t.message_id) s.traces (map (λ d. d.1) (decisions ids)))
  unfolding route_messages resolve
  route_messages-done [] s h = (refl, refl)
  route_messages-done (id ∷ ids) s h = elim (Option-cases (projections id)) [
    | inl e ↦ rw (e, route_messages) (route_messages-done ids s (rw (e, route_messages) at h))
    | inr (p, e) ↦ elim (route_one-cases p s (dispatch consumers (router p).0 p s.world) refl) [
      | inl r ↦
          rw (e, r, route_messages)
            (route_messages-done ids (routed p s (dispatch consumers (router p).0 p s.world).1)
              (rw (e, r, route_messages) at h))
      | inr (x, r) ↦ absurd (ground (arith, e, r, h))
    ]
  ]

  -- Of a routing job that returns, on a first delivery or on a retry after any failure: the decision
  -- stored for a message is the last that the router made of the request's projections under that
  -- message, or what was stored before where there is none, and so the trace.
  pub route-last_write :
      (request : RoutingRequest) (s : RouteState World) (j : MessageId)
      → (route projections router consumers request s).0 ≡ done
      → (HashMap.get j (route projections router consumers request s).1.routes
          ≡ or_else
              (last_write (λ d. d.message_id) j (map (λ d. d.0) (decisions request.messages)))
              (HashMap.get j s.routes))
        × (HashMap.get j (route projections router consumers request s).1.traces
            ≡ or_else
                (last_write (λ t. t.message_id) j (map (λ d. d.1) (decisions request.messages)))
                (HashMap.get j s.traces))
  unfolding route
  route-last_write request s j h =
      let (routes, traces) = route_messages-done request.messages s h in
      (
        rw routes (
            get-write_all (λ d. d.message_id) j s.routes
              (map (λ d. d.0) (decisions request.messages))),
        rw traces (
            get-write_all (λ t. t.message_id) j s.traces
              (map (λ d. d.1) (decisions request.messages))),
      )

  route_one-ok :
      (p : Projection R) (s : RouteState World) (x : Outcome ConsumerError × World)
      → dispatch consumers (router p).0 p s.world ≡ x
      → x.0 ≡ ok
      → route_one projections router consumers p s ≡ (done, routed p s x.1)
  unfolding route_one
  route_one-ok p s (ok, w) h o = rw h refl
  route_one-ok p s (err e, w) h o = absurd (cc)

  -- No consumer that is registered reports an error.
  abbrev pub Accepting : Type 0
  Accepting =
      (kind : ConsumerKind) (c : Consumer R World)
      → HashMap.get kind consumers ≡ some c
      → (d : RoutingDecision) (p : Projection R) (w : World) → (c d p w).0 ≡ ok

  -- A decision for a target that has no consumer is dispatched too.
  dispatch-ok :
      Accepting
      → (d : RoutingDecision) (p : Projection R) (w : World) → (dispatch consumers d p w).0 ≡ ok
  unfolding dispatch
  dispatch-ok accept d p w = elim (Option-cases (HashMap.get d.target consumers)) [
    | inl e ↦ rw (e, dispatch) refl
    | inr (c, e) ↦ rw (e, dispatch) (accept d.target c e d p w)
  ]

  route_messages-ok :
      Accepting
      → (ids : List MessageId) (s : RouteState World)
      → (route_messages projections router consumers ids s).0 ≡ done
  unfolding route_messages
  route_messages-ok accept [] s = refl
  route_messages-ok accept (id ∷ ids) s = elim (Option-cases (projections id)) [
    | inl e ↦ rw (e, route_messages) (route_messages-ok accept ids s)
    | inr (p, e) ↦
        let r =
          route_one-ok p s (dispatch consumers (router p).0 p s.world) refl
            (dispatch-ok accept (router p).0 p s.world) in
        rw (e, r, route_messages)
          (route_messages-ok accept ids (routed p s (dispatch consumers (router p).0 p s.world).1))
  ]

  -- Where no registered consumer reports an error, a routing job returns, from every state: also where
  -- the router targets kinds that have no consumer, and where messages have no projection.
  pub route_returns :
      Accepting
      → (request : RoutingRequest) (s : RouteState World)
      → (route projections router consumers request s).0 ≡ done
  unfolding route
  route_returns accept request s = route_messages-ok accept request.messages s
