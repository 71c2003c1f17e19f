-- ===== src/Runtime/Cache.antt =====
-- crates/mirrorlane-runtime/src/cache.rs: the trait of a semantic cache, the cache in memory, and the
-- decorator `Cached`. The decorator's state is that of the cache beside the world of the inner step.
pub mod Laws
pub mod Frozen
use mirrorlane.Base.{String, ◌≡◌, Option, none, some, List, [], ◌∷◌, triple_eq}
use mirrorlane.Base.HashMap
use mirrorlane.Base.HashMap.{HashMap}
use mirrorlane.Runtime.Step.{Step, StepVersion}

abbrev pub InMemoryCache : Type 0 → Type 0
InMemoryCache V = HashMap (String × String × String) V

module _ {V : Type 0} where
  -- `Cache::get` of `InMemoryCache`
  unfoldable pub get : String → StepVersion → String → InMemoryCache V → Option V
  get kind version key cache = HashMap.get (kind, version, key) cache

  -- `Cache::put` of `InMemoryCache`
  unfoldable pub put : String → StepVersion → String → V → InMemoryCache V → InMemoryCache V
  put kind version key value cache = HashMap.insert (kind, version, key) value cache

-- The trait `Cache`, as its operations on the state that a cache keeps
pub record Cache (V S : Type 0) : Type 0 where
  pub get : String → StepVersion → String → S → Option V
  pub put : String → StepVersion → String → V → S → S

unfoldable pub in_memory_cache : {V : Type 0} → Cache V (InMemoryCache V)
in_memory_cache = record { get = get; put = put }

pub record Cached (In Out S World : Type 0) : Type 0 where
  pub inner : Step In Out World
  pub cache : Cache Out S
  pub version : StepVersion

module _ {Out S World : Type 0} (cache : Cache Out S) where
  -- The end of `run` on a miss: the output is put, a panic is passed on and puts nothing.
  unfoldable pub store_output :
      String → StepVersion → String → Option Out × World → S → Option Out × (S × World)
  store_output kind version key (none, w) s = (none, (s, w))
  store_output kind version key (some out, w) s = (some out, (cache.put kind version key out s, w))

module _ {In Out S World : Type 0} where
  -- `Cached::new`
  abbrev pub new : Step In Out World → Cache Out S → StepVersion → Cached In Out S World
  new inner cache version = record { inner = inner; cache = cache; version = version }

  -- `Cached::with_inner_version`
  abbrev pub with_inner_version : Step In Out World → Cache Out S → Cached In Out S World
  with_inner_version inner cache = new inner cache inner.version

  -- `Cached::run`; `key` is `CacheKey::cache_key` of the input.
  unfoldable pub cached_run :
      (In → String) → Cached In Out S World → In → S × World → Option Out × (S × World)
  unfolding store_output
  cached_run key c input (s, w) = elim (c.cache.get c.inner.kind c.version (key input) s) [
    | some hit ↦ (some hit, (s, w))
    | none ↦ store_output c.cache c.inner.kind c.version (key input) (c.inner.run input w) s
  ]

  -- `Cached` as a step again
  unfoldable pub cached_step : (In → String) → Cached In Out S World → Step In Out (S × World)
  unfolding cached_run
  cached_step key c = record { kind = c.inner.kind; version = c.version; run = cached_run key c }
