-- ===== src/Worker/RoutedWork/Unique.antt =====
-- What crates/mirrorlane-worker/src/routed_work.rs promises with the routing job: while a message's work
-- is live, no other is queued for it.
use text.Mathlib.TextEquality.{eq_iff}
use text.Mathlib.TextLemmas.{append_cancel_left}
use mirrorlane.Base.{
  String, ◌<>◌, ◌≡◌, refl, sym, ap, ◌∙◌, ◌||◌, subst, ◌⊎◌, inl, inr, Bool, true, false, List, [],
  ◌∷◌, ◌++◌, map, arith, string_eq, ◌==◌, Bool-cases,
}
use mirrorlane.Base.Lists.{contains, Nodup, Nodup-append_one, contains-append}
use mirrorlane.Core.Message.{MessageId}
use mirrorlane.Core.Projection.{Projection}
use mirrorlane.Core.Routing.{RoutingDecision, consumer_kind_eq, Outcome, ok, err}
use mirrorlane.Worker.DeadLetters.{routed_work_lane}
use mirrorlane.Worker.RoutedWork.{
  RoutedWorkPayload, EnqueueUnique, routed_work_kind, unique_key, consumer_result, consume_job,
}

-- A live job of the routed-work lane: its key and its payload
abbrev pub Jobs : Type 0 → Type 0
Jobs R = List (String × RoutedWorkPayload R)

abbrev pub keys : {R : Type 0} → Jobs R → List String
keys jobs = map (λ j. j.0) jobs

abbrev pub message_ids : {R : Type 0} → Jobs R → List MessageId
message_ids jobs = map (λ j. j.1.message_id) jobs

-- Worklane's `enqueue_unique`: the live jobs of the lane can be asked for; an enqueue under a key that is
-- live leaves them, one under a key that is not adds the job, and one that fails leaves them.
pub record KeepsUnique {R World : Type 0} (enqueue_unique : EnqueueUnique R World) : Type 0 where
  pub jobs : World → Jobs R
  pub enqueue-live :
      (key : String) (p : RoutedWorkPayload R) (w : World)
      → contains key (keys (jobs w)) ≡ true
      → jobs (enqueue_unique routed_work_lane routed_work_kind key p w).1 ≡ jobs w
  pub enqueue-new :
      (key : String) (p : RoutedWorkPayload R) (w : World)
      → contains key (keys (jobs w)) ≡ false
      → (enqueue_unique routed_work_lane routed_work_kind key p w).0 ≡ ok
      → jobs (enqueue_unique routed_work_lane routed_work_kind key p w).1 ≡ jobs w ++ (key, p) ∷ []
  pub enqueue-failed :
      (key : String) (p : RoutedWorkPayload R) (w : World) (e : String)
      → (enqueue_unique routed_work_lane routed_work_kind key p w).0 ≡ err e
      → jobs (enqueue_unique routed_work_lane routed_work_kind key p w).1 ≡ jobs w

-- Each job has the key of its message, and no two are of one message.
abbrev pub OneEach : {R : Type 0} → Jobs R → Type 0
OneEach jobs = (keys jobs ≡ map unique_key (message_ids jobs)) × Nodup (message_ids jobs)

unique_key-== : (m n : MessageId) → (unique_key m == unique_key n) ≡ (m == n)
unfolding unique_key
unique_key-== m n = ground (
  arith,
  eq_iff m n,
  eq_iff (routed_work_lane <> (":" <> m)) (routed_work_lane <> (":" <> n)),
  append_cancel_left ":" m n,
  append_cancel_left routed_work_lane (":" <> m) (":" <> n),
)

contains-unique_key :
    (m : MessageId) (ids : List MessageId)
    → contains (unique_key m) (map unique_key ids) ≡ contains m ids
contains-unique_key m [] = refl
contains-unique_key m (n ∷ ids) = rw (unique_key-== n m, contains-unique_key m ids) refl

contains-keys :
    {R : Type 0} (m : MessageId) (jobs : Jobs R)
    → OneEach jobs
    → contains (unique_key m) (keys jobs) ≡ contains m (message_ids jobs)
contains-keys m jobs (keyed, once) = rw keyed (contains-unique_key m (message_ids jobs))

map-append_one {ℓ κ} :
    {A : Type ℓ} {B : Type κ} (f : A → B) (xs : List A) (x : A)
    → map f (xs ++ x ∷ []) ≡ map f xs ++ f x ∷ []
map-append_one f [] x = refl
map-append_one f (y ∷ ys) x = rw (map-append_one f ys x) refl

-- Of the ids with one more job
contains-message_ids :
    {R : Type 0} (m : MessageId) (jobs : Jobs R) (key : String) (p : RoutedWorkPayload R)
    → contains m (message_ids (jobs ++ (key, p) ∷ []))
      ≡ (contains m (message_ids jobs) || p.message_id == m)
contains-message_ids {R} m jobs key p =
    rw
      (
        map-append_one (λ (j : String × RoutedWorkPayload R). j.1.message_id) jobs (key, p),
        contains-append m (message_ids jobs) (p.message_id ∷ []),
      )
      (ground arith)

OneEach-append :
    {R : Type 0} (jobs : Jobs R) (p : RoutedWorkPayload R)
    → OneEach jobs
    → contains p.message_id (message_ids jobs) ≡ false
    → OneEach (jobs ++ (unique_key p.message_id, p) ∷ [])
OneEach-append {R} jobs p (keyed, once) fresh =
    rw
      (
        map-append_one (λ (j : String × RoutedWorkPayload R). j.0) jobs
            (unique_key p.message_id, p),
        map-append_one (λ (j : String × RoutedWorkPayload R). j.1.message_id) jobs
            (unique_key p.message_id, p),
        map-append_one unique_key (message_ids jobs) p.message_id,
      )
      (
        ap (λ ks. ks ++ unique_key p.message_id ∷ []) keyed,
        Nodup-append_one p.message_id (message_ids jobs) once fresh,
      )

module _ {R World : Type 0} (enqueue_unique : EnqueueUnique R World)
    (queue : KeepsUnique enqueue_unique) where
  abbrev pub queued : MessageId → World → Bool
  queued m w = contains m (message_ids (queue.jobs w))

  -- From one world to a later one, each message keeps at most one job, and none is lost.
  abbrev pub Advances : World → World → Type 0
  Advances w w' =
      OneEach (queue.jobs w)
      → OneEach (queue.jobs w') × ((m : MessageId) → queued m w ≡ true → queued m w' ≡ true)

  pub same_jobs-Advances : (w w' : World) → queue.jobs w' ≡ queue.jobs w → Advances w w'
  same_jobs-Advances w w' e each = (
    subst OneEach (sym e) each,
    λ m h. subst (λ (js : Jobs R). contains m (message_ids js) ≡ true) (sym e) h,
  )

  pub Advances-trans : (u v w : World) → Advances u v → Advances v w → Advances u w
  Advances-trans u v w first second each =
      let (each_v, kept_v) = first each in
      let (each_w, kept_w) = second each_v in (each_w, λ m h. kept_w m (kept_v m h))

  new_job-Advances :
      (w w' : World) (p : RoutedWorkPayload R)
      → queued p.message_id w ≡ false
      → queue.jobs w' ≡ queue.jobs w ++ (unique_key p.message_id, p) ∷ []
      → Advances w w'
  new_job-Advances w w' p fresh e each = (
    subst OneEach (sym e) (OneEach-append (queue.jobs w) p each fresh),
    λ m h.
        subst (λ (js : Jobs R). contains m (message_ids js) ≡ true) (sym e)
          (rw (contains-message_ids m (queue.jobs w) (unique_key p.message_id) p)
            (ground (arith, h))),
  )

  new_job-queued :
      (w w' : World) (p : RoutedWorkPayload R)
      → queue.jobs w' ≡ queue.jobs w ++ (unique_key p.message_id, p) ∷ []
      → queued p.message_id w' ≡ true
  new_job-queued w w' p e =
      subst (λ (js : Jobs R). contains p.message_id (message_ids js) ≡ true) (sym e)
        (rw (contains-message_ids p.message_id (queue.jobs w) (unique_key p.message_id) p)
          (ground (arith, eq_iff p.message_id p.message_id)))

  consumer_result-world : (r : Outcome String × World) → (consumer_result r).1 ≡ r.1
  consumer_result-world (ok, w) = refl
  consumer_result-world (err e, w) = refl

  consumer_result-ok : (r : Outcome String × World) → (consumer_result r).0 ≡ ok → r.0 ≡ ok
  consumer_result-ok (ok, w) h = refl
  consumer_result-ok (err e, w) h = absurd (cc)

  Outcome-cases : (o : Outcome String) → (o ≡ ok) ⊎ ((e : String) × (o ≡ err e))
  Outcome-cases ok = inl refl
  Outcome-cases (err e) = inr (e, refl)

  -- What `enqueue_unique` does for a message
  enqueue-Advances :
      (p : RoutedWorkPayload R) (w : World)
      → OneEach (queue.jobs w)
      → let r = enqueue_unique routed_work_lane routed_work_kind (unique_key p.message_id) p w in
        Advances w r.1 × (r.0 ≡ ok → queued p.message_id r.1 ≡ true)
  enqueue-Advances p w each =
      let key = unique_key p.message_id in
      let r = enqueue_unique routed_work_lane routed_work_kind key p w in
      elim (Bool-cases (queued p.message_id w)) [
        | inl there_is ↦
            let kept =
              queue.enqueue-live key p w
                (contains-keys p.message_id (queue.jobs w) each ∙ there_is) in
            let advances = same_jobs-Advances w r.1 kept in
            (advances, λ h. (advances each).1 p.message_id there_is)
        | inr fresh ↦ elim (Outcome-cases r.0) [
          | inl returned ↦
              let added =
                queue.enqueue-new key p w (contains-keys p.message_id (queue.jobs w) each ∙ fresh)
                  returned in
              (new_job-Advances w r.1 p fresh added, λ h. new_job-queued w r.1 p added)
          | inr (e, refused) ↦
              (same_jobs-Advances w r.1 (queue.enqueue-failed key p w e refused), λ h. absurd (cc))
        ]
      ]

  pub consume_job-Advances :
      (d : RoutingDecision) (p : Projection R) (w : World)
      → OneEach (queue.jobs w)
      → Advances w (consume_job enqueue_unique d p w).1
        × ((consume_job enqueue_unique d p w).0 ≡ ok
            → queued d.message_id (consume_job enqueue_unique d p w).1 ≡ true)
  unfolding consume_job
  consume_job-Advances d p w each =
      let payload : RoutedWorkPayload R = record { message_id = d.message_id; projection = p } in
      let r =
        enqueue_unique routed_work_lane routed_work_kind (unique_key d.message_id) payload w in
      let (advances, there_is) = enqueue-Advances payload w each in
      (
        subst (Advances w) (sym (consumer_result-world r)) advances,
        λ h.
            subst (λ x. queued d.message_id x ≡ true) (sym (consumer_result-world r))
              (there_is (consumer_result-ok r h)),
      )
