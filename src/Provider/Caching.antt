-- ===== src/Provider/Caching.antt =====
-- crates/mirrorlane-provider/src/caching.rs: the projector behind the runtime's cache, under a kind of
-- its own, with the cache key of a message from crates/mirrorlane-core/src/cache.rs. `DefaultHasher` and
-- its print are a function of the texts that it is fed.
use mirrorlane.Base.{String, List, [], ◌∷◌}
use mirrorlane.Core.Message.{MessageEnvelope}
use mirrorlane.Core.Projection.{Projection}
use mirrorlane.Runtime.Step.{Step, StepVersion}
use mirrorlane.Runtime.Cache.{Cache, Cached, InMemoryCache, new, cached_run}

abbrev pub InMemoryProjectionCache : Type 0 → Type 0
InMemoryProjectionCache R = InMemoryCache (Projection R)

-- `cache_key` of `MessageEnvelope`: of its id and its body
unfoldable pub cache_key : (List String → String) → MessageEnvelope → String
cache_key digest message = digest (message.id ∷ message.body ∷ [])

module _ {R S World : Type 0} (digest : List String → String) where
  -- `CachingProjector::new`
  abbrev pub new_projector :
      Step MessageEnvelope (Projection R) World
      → Cache (Projection R) S
      → StepVersion
      → Cached MessageEnvelope (Projection R) S World
  new_projector inner cache version = new inner cache version

  -- `CachingProjector` as a step
  unfoldable pub caching_projector :
      Cached MessageEnvelope (Projection R) S World
      → Step MessageEnvelope (Projection R) (S × World)
  caching_projector c = record {
    kind = "mirrorlane.projection.cached";
    version = c.version;
    run = cached_run (cache_key digest) c;
  }
