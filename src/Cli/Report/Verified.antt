-- ===== src/Cli/Report/Verified.antt =====
-- How the verify command of crates/mirrorlane-cli/src/main.rs ends.
use text.Mathlib.TextEquality.{eq_iff}
use mirrorlane.Base.{
  ℕ, String, ◌≡◌, ◌≢◌, ◌↔◌, refl, sym, ap, ◌∙◌, subst, inl, inr, Bool, true, false, Bool-cases,
  Option, none, some, List, [], ◌∷◌, arith, string_eq, ◌==◌,
}
use mirrorlane.Base.Float.{Float}
use mirrorlane.Base.Lists.{In, here, there, filter, length}
use mirrorlane.Base.Number.{ltb}
use mirrorlane.Base.Result.{Result, ok, is_ok, ok_of-is_ok}
use mirrorlane.Cli.Commands.{VerifyRecord, verify}
use mirrorlane.Cli.Commands.Served.{verify_exact}
use mirrorlane.Cli.Config.{Format, text_format, json_format}
use mirrorlane.Cli.Report.{retain, count_outcome, fail_if_diverged, verify_report}
use mirrorlane.Core.Derivation.{StepVersion, ConversationDerivation, DerivedOutputCache}
use mirrorlane.Core.Message.{ConversationId, MessageEnvelope}
use mirrorlane.Core.MessageLog.Sessions.{mentions}
use mirrorlane.Worker.Derived.{derivation_for, populate_cache}
use mirrorlane.Worker.Registry.{ReplayStrategy}

-- The records that a command was asked about
abbrev pub Wanted : Option ConversationId → VerifyRecord → Type 0
Wanted none r = Unit
Wanted (some c) r = r.conversation ≡ c

module _ {A : Type 0} (p : A → Bool) where
  In-filter : {a : A} (xs : List A) → In a xs → p a ≡ true → In a (filter p xs)
  In-filter [] i h = elim i [ ]
  In-filter (x ∷ xs) (here e) h = rw (subst (λ y. p y ≡ true) e h) (here e)
  In-filter (x ∷ xs) (there i) h = elim (Bool-cases (p x)) [
    | inl t ↦ rw t (there (In-filter xs i h))
    | inr f ↦ rw f (In-filter xs i h)
  ]

  In-filter_inv : (a : A) (xs : List A) → In a (filter p xs) → In a xs × (p a ≡ true)
  In-filter_inv a [] i = elim i [ ]
  In-filter_inv a (x ∷ xs) i = elim (Bool-cases (p x)) [
    | inl t ↦ by_head t (rw t at i) (In-filter_inv a xs)
    | inr f ↦ let (j, h) = In-filter_inv a xs (rw f at i) in (there j, h)
  ]
    where
      by_head :
          p x ≡ true
          → In a (x ∷ filter p xs)
          → (In a (filter p xs) → In a xs × (p a ≡ true))
          → In a (x ∷ xs) × (p a ≡ true)
      by_head t (here e) rest = (here e, subst (λ y. p y ≡ true) (sym e) t)
      by_head t (there j) rest = let (k, h) = rest j in (there k, h)

  none_filtered : (xs : List A) → length (filter p xs) ≡ 0 → (a : A) → In a xs → p a ≡ false
  none_filtered xs h a i = elim (Bool-cases (p a)) [
    | inl t ↦ absurd (not_empty (filter p xs) h (In-filter xs i t))
    | inr f ↦ f
  ]
    where
      not_empty : (ys : List A) → length ys ≡ 0 → In a ys → ⊥
      not_empty [] e j = elim j [ ]
      not_empty (y ∷ ys) e j = absurd (omega arith)

  filtered_none : (xs : List A) → ((a : A) → In a xs → p a ≡ false) → length (filter p xs) ≡ 0
  filtered_none [] h = refl
  filtered_none (x ∷ xs) h = rw (h x (here refl)) (filtered_none xs (λ a i. h a (there i)))

retain-In :
    (c : Option ConversationId) (records : List VerifyRecord) (r : VerifyRecord)
    → (In r (retain c records)) ↔ (In r records × Wanted c r)
unfolding retain
retain-In none records r = (λ i. (i, tt), λ i. i.0)
retain-In (some c) records r = (
  λ i.
      let (j, h) = In-filter_inv (λ x. x.conversation == c) r records i in
      (j, (eq_iff r.conversation c).0 h),
  λ i. In-filter (λ x. x.conversation == c) records i.0 ((eq_iff r.conversation c).1 i.1),
)

-- Where the records print, the command ends as its count of divergences does.
verify_report-end :
    (to_string : List VerifyRecord → Result String String) (format : Format)
    (c : Option ConversationId) (records : List VerifyRecord)
    → ((rs : List VerifyRecord) → is_ok (to_string rs) ≡ true)
    → (verify_report to_string format c records).1
      ≡ fail_if_diverged (count_outcome "diverged" (retain c records))
unfolding verify_report
verify_report-end to_string text_format c records prints = refl
verify_report-end to_string json_format c records prints =
    let (line, e) = ok_of-is_ok (to_string (retain c records)) (prints (retain c records)) in
    rw e refl

fail_if_diverged-zero : (n : ℕ) → (fail_if_diverged n ≡ ok tt) ↔ (n ≡ 0)
fail_if_diverged-zero n = elim (Bool-cases (ltb 0 n)) [
  | inl t ↦ (λ h. absurd (cc (rw t at h)), λ h. absurd (ground arith))
  | inr f ↦ (λ h. ground arith, λ h. rw f refl)
]

not_diverged : (r : VerifyRecord) → r.outcome ≢ "diverged" → (r.outcome == "diverged") ≡ false
not_diverged r h = elim (Bool-cases (r.outcome == "diverged")) [
  | inl t ↦ absurd (h ((eq_iff r.outcome "diverged").0 t))
  | inr f ↦ f
]

-- Where the records can be printed, in either format: the verify command ends well exactly where no record
-- of the conversation that it was asked about, or of all where it was asked about none, says that a
-- derivation diverged.
pub verify_report_iff :
    (to_string : List VerifyRecord → Result String String) (format : Format)
    (c : Option ConversationId) (records : List VerifyRecord)
    → ((rs : List VerifyRecord) → is_ok (to_string rs) ≡ true)
    → ((verify_report to_string format c records).1 ≡ ok tt)
      ↔ ((r : VerifyRecord) → In r records → Wanted c r → r.outcome ≢ "diverged")
unfolding count_outcome
verify_report_iff to_string format c records prints = (
  λ h r i w same.
      let none_diverged =
        (fail_if_diverged-zero (count_outcome "diverged" (retain c records))).0
          (sym (verify_report-end to_string format c records prints) ∙ h) in
      let clash =
        none_filtered (λ x. x.outcome == "diverged") (retain c records) none_diverged r
          ((retain-In c records r).1 (i, w)) in
      absurd (cc (rw ((eq_iff r.outcome "diverged").1 same) at clash)),
  λ h.
      verify_report-end to_string format c records prints
      ∙ (fail_if_diverged-zero (count_outcome "diverged" (retain c records))).1 (
          filtered_none (λ x. x.outcome == "diverged") (retain c records)
            (λ r i.
              not_diverged r
                (h r ((retain-In c records r).0 i).0 ((retain-In c records r).0 i).1))),
)

verified-diverged : ◌≢◌ {A = String} "verified" "diverged"
verified-diverged e = let clash : false ≡ true = (eq_iff "verified" "diverged").1 e in cc

module _ {R S : Type 0} ⦃f : Float R⦄ (digest : List String → String)
    (cache : DerivedOutputCache R S) (strategy : ReplayStrategy R) (version : StepVersion)
    (log : List MessageEnvelope) where
  -- After a replay has published to a cache, the verify command over the same log, strategy and version
  -- ends well, for every conversation and in either format, where the records can be printed and what the
  -- cache reads back of each derivation of the log is equal to it by the test of derivations.
  pub verify_report-passes :
      (same : ConversationDerivation R → ConversationDerivation R → Bool)
      → ((c : ConversationId) (d : ConversationDerivation R)
          → mentions c log ≡ true
          → derivation_for (strategy log) log c ≡ some d
          → same (cache.back d) d ≡ true)
      → (to_string : List VerifyRecord → Result String String)
      → ((rs : List VerifyRecord) → is_ok (to_string rs) ≡ true)
      → (format : Format) (c : Option ConversationId) (s : S)
      → (ds : List (ConversationDerivation R)) × (s' : S) × (records : List VerifyRecord)
        × (populate_cache digest cache (strategy log) version log s ≡ some (ds, s'))
        × (verify digest cache strategy version log same s' ≡ some records)
        × ((verify_report to_string format c records).1 ≡ ok tt)
  verify_report-passes same reads to_string prints format c s =
      let (ds, s', records, published, ran, each, only) =
        verify_exact digest cache strategy version log same s in
      let all_verified : (r : VerifyRecord) → In r records → r.outcome ≡ "verified" = λ r i.
        let (j, d, present, e, is_record) = only r i in
        ap (λ r. r.outcome) is_record ∙ rw (reads j d present e) refl in
      (
        ds,
        s',
        records,
        published,
        ran,
        (verify_report_iff to_string format c records prints).1
            (λ r i w e. verified-diverged (sym (all_verified r i) ∙ e)),
      )
