-- ===== src/Storage/Projections/Durable.antt =====
-- What the durable cache of projections keeps: a put changes no other entry, what is put is read back
-- as JSON keeps it, and pruning to a version keeps what that version reads.
use mirrorlane.Base.{String, ◌≡◌, string_eq, ==_refl, some, arith}
use mirrorlane.Base.HashMap
use mirrorlane.Core.Projection.{Projection}
use mirrorlane.Runtime.Cache.Laws.{KeepsEntries}
use mirrorlane.Storage.Projections.{
  ProjectionTable, pair_eq, pair_beq_iff, get_cached, put_cached, prune_projections,
  get-prune_projections, sqlite_projection_cache,
}

module _ {R P : Type 0} (write : Projection R → P) (read : P → Projection R) where
  pub cached-put_self :
      (kind v x : String) (p : Projection R) (t : ProjectionTable P)
      → get_cached write read kind v x (put_cached write read kind v x p t) ≡ some (read (write p))
  unfolding get_cached put_cached
  cached-put_self kind v x p t = ground (arith, HashMap.get-insert_self (v, x) (write p) t)

  pub sqlite_projection_cache-KeepsEntries : KeepsEntries (sqlite_projection_cache write read)
  unfolding sqlite_projection_cache get_cached put_cached
  sqlite_projection_cache-KeepsEntries kind v x j h y o p t miss hit =
      ground
        (arith, miss, hit, HashMap.get-insert (v, x) (h, y) (write o) t, pair_beq_iff (v, x) (h, y))

  pub get_cached-prune :
      (kind v x : String) (t : ProjectionTable P)
      → get_cached write read kind v x (prune_projections v t) ≡ get_cached write read kind v x t
  unfolding get_cached
  get_cached-prune kind v x t = ground (arith, get-prune_projections v v x t, ==_refl v)
