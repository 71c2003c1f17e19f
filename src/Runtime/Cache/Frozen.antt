-- ===== src/Runtime/Cache/Frozen.antt =====
-- What the decorator of crates/mirrorlane-runtime/src/cache.rs guarantees of any inner step: an output is
-- frozen once it was produced, a panic stores nothing, a version sees only its own entries.
use mirrorlane.Base.{
  String, ◌≡◌, refl, ap, Option, none, some, List, [], ◌∷◌, arith, Option-cases, inl, inr, ◌≢◌,
}
use mirrorlane.Base.Lists.{foldl}
use mirrorlane.Runtime.Cache.{Cached, store_output, cached_run}
use mirrorlane.Runtime.Cache.Laws.{CacheLaws, KeepsEntries}

module _ {In Out S World : Type 0} (key : In → String) (c : Cached In Out S World) where
  abbrev State : Type 0
  State = S × World

  -- What the cache holds for an input of this step
  abbrev pub frozen : In → State → Option Out
  frozen input s = c.cache.get c.inner.kind c.version (key input) s.0

  -- Runs one after another, each whether or not another panicked
  unfoldable pub run_each : List In → State → State
  run_each inputs s = foldl (λ s input. (cached_run key c input s).1) s inputs

  abbrev pub push_output : Out → Option (List Out) × State → Option (List Out) × State
  push_output out (none, s) = (none, s)
  push_output out (some outs, s) = (some (out ∷ outs), s)

  abbrev pub and_then :
      Option Out × State → (State → Option (List Out) × State) → Option (List Out) × State
  and_then (none, s) rest = (none, s)
  and_then (some out, s) rest = push_output out (rest s)

  -- A pass over inputs that ends at the first panic
  unfoldable pub run_all : List In → State → Option (List Out) × State
  run_all [] s = (some [], s)
  run_all (input ∷ inputs) s = let rest = run_all inputs in and_then (cached_run key c input s) rest

  -- Every output of the pass is frozen in the state.
  abbrev pub Frozen : List In → List Out → State → Type 0
  Frozen [] outs s = outs ≡ []
  Frozen (i ∷ is) [] s = ⊥
  Frozen (i ∷ is) (o ∷ os) s = (frozen i s ≡ some o) × Frozen is os s

module _ {In Out S World : Type 0} (key : In → String) (c : Cached In Out S World)
    (keeps : KeepsEntries c.cache) where
  pub cached_run-hit :
      (input : In) (out : Out) (s : State key c)
      → frozen key c input s ≡ some out
      → cached_run key c input s ≡ (some out, s)
  unfolding cached_run
  cached_run-hit input out (cache, w) h = ground (arith, h)

  -- Storing an output under a key that the cache lacks changes no entry that is there.
  store_output-keeps :
      (k v x j h y : String) (out : Out) (r : Option Out × World) (s : S)
      → c.cache.get k v x s ≡ none
      → c.cache.get j h y s ≡ some out
      → c.cache.get j h y (store_output c.cache k v x r s).1.0 ≡ some out
  unfolding store_output
  store_output-keeps k v x j h y out (none, w) s miss hit = hit
  store_output-keeps k v x j h y out (some o, w) s miss hit = keeps k v x j h y o out s miss hit

  -- A run changes no entry that is there, of this step or of another.
  cached_run-keeps :
      (input : In) (j h y : String) (out : Out) (s : State key c)
      → c.cache.get j h y s.0 ≡ some out
      → c.cache.get j h y (cached_run key c input s).1.0 ≡ some out
  unfolding cached_run
  cached_run-keeps input j h y out (cache, w) hit =
      elim (Option-cases (c.cache.get c.inner.kind c.version (key input) cache)) [
        | inr (o, e) ↦ rw (e, cached_run) hit
        | inl e ↦
            rw (e, cached_run)
              (store_output-keeps c.inner.kind c.version (key input) j h y out (c.inner.run input w)
                cache e hit)
      ]

  pub run_each-keeps :
      (inputs : List In) (j h y : String) (out : Out) (s : State key c)
      → c.cache.get j h y s.0 ≡ some out
      → c.cache.get j h y (run_each key c inputs s).0 ≡ some out
  unfolding run_each
  run_each-keeps [] j h y out s hit = hit
  run_each-keeps (i ∷ inputs) j h y out s hit =
      run_each-keeps inputs j h y out (cached_run key c i s).1 (cached_run-keeps i j h y out s hit)

module _ {In Out S World : Type 0} (key : In → String) (c : Cached In Out S World)
    (laws : CacheLaws c.cache) where
  pub cached_run-freezes :
      (input : In) (out : Out) (s : State key c)
      → (cached_run key c input s).0 ≡ some out
      → frozen key c input (cached_run key c input s).1 ≡ some out
  unfolding cached_run store_output
  cached_run-freezes input out (cache, w) h =
      ground (arith, h, laws.get-put_self c.inner.kind c.version (key input) out cache)

  and_then-keeps :
      (j h y : String) (out : Out) (r : Option Out × State key c)
      (rest : State key c → Option (List Out) × State key c)
      → ((s : State key c)
          → c.cache.get j h y s.0 ≡ some out
          → c.cache.get j h y (rest s).1.0 ≡ some out)
      → c.cache.get j h y r.1.0 ≡ some out
      → c.cache.get j h y (and_then key c r rest).1.0 ≡ some out
  and_then-keeps j h y out (none, s) rest keeps hit = hit
  and_then-keeps j h y out (some o, s) rest keeps hit = ground (arith, keeps s hit)

  run_all-keeps :
      (inputs : List In) (j h y : String) (out : Out) (s : State key c)
      → c.cache.get j h y s.0 ≡ some out
      → c.cache.get j h y (run_all key c inputs s).1.0 ≡ some out
  unfolding run_all
  run_all-keeps [] j h y out s hit = hit
  run_all-keeps (i ∷ inputs) j h y out s hit =
      and_then-keeps j h y out (cached_run key c i s) (run_all key c inputs)
        (λ t. run_all-keeps inputs j h y out t)
        (cached_run-keeps key c laws.get-put_other i j h y out s hit)

  run_all-inv :
      (i : In) (is : List In) (outs : List Out) (s t : State key c)
      → run_all key c (i ∷ is) s ≡ (some outs, t)
      → (o : Out) × (os : List Out) × ((cached_run key c i s).0 ≡ some o)
        × (run_all key c is (cached_run key c i s).1 ≡ (some os, t))
        × (outs ≡ o ∷ os)
  unfolding run_all
  run_all-inv i is outs s t h = first (cached_run key c i s) h
    where
      second :
          (o : Out) (r : Option (List Out) × State key c)
          → push_output key c o r ≡ (some outs, t)
          → (os : List Out) × (r ≡ (some os, t)) × (outs ≡ o ∷ os)
      second o (none, u) e = absurd (cc)
      second o (some os, u) e = (os, ground arith, ground arith)

      first :
          (r : Option Out × State key c)
          → and_then key c r (run_all key c is) ≡ (some outs, t)
          → (o : Out) × (os : List Out) × (r.0 ≡ some o)
            × (run_all key c is r.1 ≡ (some os, t))
            × (outs ≡ o ∷ os)
      first (none, u) e = absurd (cc)
      first (some o, u) e =
          let (os, ran, made) = second o (run_all key c is u) e in (o, os, refl, ran, made)

  run_all-Frozen :
      (inputs : List In) (outs : List Out) (s t : State key c)
      → run_all key c inputs s ≡ (some outs, t)
      → Frozen key c inputs outs t
  run_all-Frozen [] outs s t h = unfold run_all in ground arith
  run_all-Frozen (i ∷ is) outs s t h =
      let (o, os, ran, rest, made) = run_all-inv i is outs s t h in
      let s' = (cached_run key c i s).1 in
      let kept : frozen key c i (run_all key c is s').1 ≡ some o =
        run_all-keeps is c.inner.kind c.version (key i) o s' (cached_run-freezes i o s ran) in
      rw made (rw (ap (λ r. r.1) rest) at kept, run_all-Frozen is os s' t rest)

  Frozen-run_all :
      (inputs : List In) (outs : List Out) (s : State key c)
      → Frozen key c inputs outs s
      → run_all key c inputs s ≡ (some outs, s)
  unfolding run_all
  Frozen-run_all [] outs s h = rw h
  Frozen-run_all (i ∷ is) [] s h = absurd h
  Frozen-run_all (i ∷ is) (o ∷ os) s (h, hs) =
      rw (cached_run-hit key c laws.get-put_other i o s h, Frozen-run_all is os s hs)

  each-Frozen :
      (others inputs : List In) (outs : List Out) (s : State key c)
      → Frozen key c inputs outs s
      → Frozen key c inputs outs (run_each key c others s)
  each-Frozen others [] outs s h = h
  each-Frozen others (i ∷ is) [] s h = absurd h
  each-Frozen others (i ∷ is) (o ∷ os) s (h, hs) = (
    run_each-keeps key c laws.get-put_other others c.inner.kind c.version (key i) o s h,
    each-Frozen others is os s hs,
  )

  -- Once a pass over inputs has produced its outputs, the same pass at any later time, whatever ran in
  -- between and whether or not it panicked, returns the same outputs, and it changes neither the cache
  -- nor the world: the inner step is not called again.
  pub replay_frozen :
      (inputs others : List In) (outs : List Out) (s t : State key c)
      → run_all key c inputs s ≡ (some outs, t)
      → run_all key c inputs (run_each key c others t) ≡ (some outs, run_each key c others t)
  replay_frozen inputs others outs s t h =
      Frozen-run_all inputs outs (run_each key c others t)
        (each-Frozen others inputs outs t (run_all-Frozen inputs outs s t h))

  -- A run that panics leaves the cache as it was.
  pub cached_run-panic :
      (input : In) (s : State key c)
      → (cached_run key c input s).0 ≡ none
      → (cached_run key c input s).1.0 ≡ s.0
  unfolding cached_run
  cached_run-panic input (cache, w) h = ground (arith, h)

  store_output-version :
      (k v x j h y : String) (r : Option Out × World) (s : S)
      → h ≢ v
      → c.cache.get j h y (store_output c.cache k v x r s).1.0 ≡ c.cache.get j h y s
  unfolding store_output
  store_output-version k v x j h y (none, w) s other = refl
  store_output-version k v x j h y (some o, w) s other = laws.get-put_version k v x j h y o s other

  -- A run under one version changes no entry of another version.
  pub cached_run-version :
      (input : In) (j h y : String) (s : State key c)
      → h ≢ c.version
      → c.cache.get j h y (cached_run key c input s).1.0 ≡ c.cache.get j h y s.0
  unfolding cached_run
  cached_run-version input j h y (cache, w) other =
      elim (Option-cases (c.cache.get c.inner.kind c.version (key input) cache)) [
        | inr (o, e) ↦ rw (e, cached_run) refl
        | inl e ↦
            rw (e, cached_run)
              (store_output-version c.inner.kind c.version (key input) j h y (c.inner.run input w)
                cache other)
      ]
