-- ===== src/Base/HashMap/Writes.antt =====
-- Runs of writes to a map, each under the key that its value carries. What a lookup finds after
-- them does not depend on the order or the number of the runs, where the runs agree.
use mirrorlane.Base.{
  ◌≡◌, refl, sym, ◌∙◌, Option, none, some, List, [], ◌∷◌, arith, Eq, ◌==◌, if◌then◌else◌,
  Option-cases, inl, inr,
}
use mirrorlane.Base.Lists.{In, here, there, foldl}
use mirrorlane.Base.HashMap.{HashMap, get, insert, get-insert, get-nil}

abbrev pub or_else {ℓ} : {A : Type ℓ} → Option A → Option A → Option A
or_else none b = b
or_else (some a) b = some a

module _ {ℓ κ} {K : Type ℓ} {V : Type κ} ⦃e : Eq K⦄ (key : V → K) where
  abbrev pub write_all : HashMap K V → List V → HashMap K V
  write_all m vs = foldl (λ m v. insert (key v) v m) m vs

  -- The value that the last write under the key leaves.
  abbrev pub last_write : K → List V → Option V
  last_write j [] = none
  last_write j (v ∷ vs) = or_else (last_write j vs) (if key v == j then some v else none)

  pub get-write_all :
      (j : K) (m : HashMap K V) (vs : List V)
      → get j (write_all m vs) ≡ or_else (last_write j vs) (get j m)
  get-write_all j m [] = refl
  get-write_all j m (v ∷ vs) =
      ground (arith, get-write_all j (insert (key v) v m) vs, get-insert (key v) j v m)

  pub last_write_of_In :
      (spec : K → Option V) (j : K) (vs : List V) {v : V}
      → ((w : V) → In w vs → spec (key w) ≡ some w)
      → last_write j vs ≡ some v
      → spec j ≡ some v
  last_write_of_In spec j [] h p = absurd (cc)
  last_write_of_In spec j (w ∷ vs) {v} h p = elim (Option-cases (last_write j vs)) [
    | inl q ↦ ground (arith, e.beq_iff (key w) j, h w (here refl))
    | inr (u, q) ↦ last_write_of_In spec j vs (λ x i. h x (there i)) (ground arith)
  ]

  pub last_write_reaches :
      (j : K) (vs : List V) {v : V} → In v vs → key v ≡ j → (w : V) × (last_write j vs ≡ some w)
  last_write_reaches j [] i k = elim i [ ]
  last_write_reaches j (x ∷ xs) {v} (here p) k = elim (Option-cases (last_write j xs)) [
    | inl q ↦ (x, ground (arith, e.beq_iff (key x) j, e.beq_iff (key v) j))
    | inr (u, q) ↦ (u, rw q)
  ]
  last_write_reaches j (x ∷ xs) (there i) k = let (w, q) = last_write_reaches j xs i k in (w, rw q)

module _ {ℓ κ ν} {K : Type ℓ} {V : Type κ} {P : Type ν} ⦃e : Eq K⦄ (key : V → K)
    (writes : P → List V) where
  -- One run of writes for each payload.
  abbrev pub run_writes : HashMap K V → List P → HashMap K V
  run_writes m ps = foldl (λ m p. write_all key m (writes p)) m ps

  -- Every payload writes what `spec` says, and every key of `spec` is written by one.
  pub record Writes (spec : K → Option V) (ps : List P) : Type (ℓ ⊔ κ ⊔ ν) where
    pub agree :
        (p : P) → In p ps → (j : K) (v : V) → last_write key j (writes p) ≡ some v → spec j ≡ some v
    pub reach :
        (j : K) (v : V)
        → spec j ≡ some v
        → (p : P) × In p ps × ((w : V) × (last_write key j (writes p) ≡ some w))

  sound :
      (spec : K → Option V) (ps : List P) (m : HashMap K V)
      → ((p : P)
          → In p ps
          → (j : K) (v : V) → last_write key j (writes p) ≡ some v
          → spec j ≡ some v)
      → ((j : K) (v : V) → get j m ≡ some v → spec j ≡ some v)
      → (j : K) (v : V) → get j (run_writes m ps) ≡ some v
      → spec j ≡ some v
  sound spec [] m agree start j v h = start j v h
  sound spec (p ∷ ps) m agree start j v h =
      sound spec ps (write_all key m (writes p)) (λ q i. agree q (there i))
        (λ k u g. elim (Option-cases (last_write key k (writes p))) [
          | inl nothing ↦ start k u (ground (arith, get-write_all key k m (writes p)))
          | inr (w, wrote) ↦
              agree p (here refl) k u (ground (arith, get-write_all key k m (writes p)))
        ])
        j v h

  stays :
      (j : K) (ps : List P) (m : HashMap K V)
      → (v : V) → get j m ≡ some v
      → (u : V) × (get j (run_writes m ps) ≡ some u)
  stays j [] m v h = (v, h)
  stays j (p ∷ ps) m v h = elim (Option-cases (last_write key j (writes p))) [
    | inl nothing ↦ stays j ps _ v (rw (get-write_all key j m (writes p), nothing) h)
    | inr (w, wrote) ↦ stays j ps _ w (rw (get-write_all key j m (writes p), wrote))
  ]

  reaches :
      (j : K) (ps : List P) (m : HashMap K V) {p : P} {w : V}
      → In p ps
      → last_write key j (writes p) ≡ some w
      → (u : V) × (get j (run_writes m ps) ≡ some u)
  reaches j [] m i h = elim i [ ]
  reaches j (q ∷ ps) m {p} {w} (here i) h =
      stays j ps (write_all key m (writes q)) w (rw get-write_all (ground (arith, i)))
  reaches j (q ∷ ps) m (there i) h = reaches j ps (write_all key m (writes q)) i h

  -- Whatever is delivered, in whatever order and however often, the lookups are those of `spec`.
  pub get-run_writes :
      (spec : K → Option V) (ps ds : List P)
      → Writes spec ps
      → ((p : P) → In p ds → In p ps)
      → ((p : P) → In p ps → In p ds)
      → (j : K) → get j (run_writes [] ds) ≡ spec j
  get-run_writes spec ps ds w sound_ds complete_ds j =
      elim (Option-cases (get j (run_writes [] ds))) [
        | inr (v, found) ↦
            found
            ∙ sym (
                sound spec ds [] (λ p i. w.agree p (sound_ds p i))
                  (λ k u g. absurd (cc (get-nil {V = V} k))) j v found)
        | inl missing ↦ elim (Option-cases (spec j)) [
          | inl absent ↦ missing ∙ sym absent
          | inr (v, present) ↦
              let (p, i, (u, wrote)) = w.reach j v present in
              let (x, found) = reaches j ds [] (complete_ds p i) wrote in absurd (cc)
        ]
      ]
