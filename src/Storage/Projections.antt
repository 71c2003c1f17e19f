-- ===== src/Storage/Projections.antt =====
-- crates/mirrorlane-storage/src/sqlite_projection_cache.rs: the durable cache of projections, a table
-- with the primary key (version, key). The kind of a step is not part of the key. `write` and `read` are
-- the JSON of a projection, in the type `P` of texts. Nothing is assumed of them: without its feature
-- `float_roundtrip`, serde_json may read a confidence back with another last digit. `read` is applied to
-- texts of `write` only. The panic on a text that is no projection, as that of one with a NaN would be, has
-- no counterpart here: the confidences that the projectors make are constants or clamped numbers of a
-- model's JSON, which holds no NaN.
pub mod Durable
use text.Mathlib.TextEquality.{eq_iff}
use mirrorlane.Base.{
  ◌≡◌, ◌↔◌, Bool, true, ◌&&◌, String, Option, none, some, [], ◌∷◌, arith, string_eq, Eq, ◌==◌,
  if◌then◌else◌,
}
use mirrorlane.Base.HashMap
use mirrorlane.Base.HashMap.{HashMap}
use mirrorlane.Core.Projection.{Projection}
use mirrorlane.Runtime.Step.{StepVersion}
use mirrorlane.Runtime.Cache.{Cache}

abbrev pub pair_beq : String × String → String × String → Bool
pair_beq (a, b) (x, y) = a == x && b == y

pub pair_beq_iff : (s t : String × String) → (pair_beq s t ≡ true) ↔ (s ≡ t)
pair_beq_iff (a, b) (x, y) = ground (arith, eq_iff a x, eq_iff b y)

instance abbrev pub pair_eq : Eq (String × String)
pair_eq = record { beq = pair_beq; beq_iff = pair_beq_iff }

abbrev pub ProjectionTable : Type 0 → Type 0
ProjectionTable P = HashMap (String × String) P

-- `DELETE .. WHERE version <> ?1`
unfoldable pub prune_projections :
    {P : Type 0} → StepVersion → ProjectionTable P → ProjectionTable P
prune_projections keep_version [] = []
prune_projections keep_version (((v, k), payload) ∷ rows) =
    let rest = prune_projections keep_version rows in
    if v == keep_version then ((v, k), payload) ∷ rest else rest

pub get-prune_projections :
    {P : Type 0} (keep v k : String) (t : ProjectionTable P)
    → HashMap.get (v, k) (prune_projections keep t)
      ≡ (if v == keep then HashMap.get (v, k) t else none)
unfolding prune_projections HashMap.get
get-prune_projections keep v k [] = ground arith
get-prune_projections keep v k (((w, i), payload) ∷ rows) = ground (
  arith,
  get-prune_projections keep v k rows,
  pair_beq_iff (w, i) (v, k),
  eq_iff w keep,
  eq_iff v keep,
)

module _ {R P : Type 0} (write : Projection R → P) (read : P → Projection R) where
  abbrev pub read_projection : Option P → Option (Projection R)
  read_projection none = none
  read_projection (some payload) = some (read payload)

  -- `Cache::get` of `SqliteProjectionCache`
  unfoldable pub get_cached :
      String → StepVersion → String → ProjectionTable P → Option (Projection R)
  get_cached kind version key t = read_projection (HashMap.get (version, key) t)

  -- `Cache::put`
  unfoldable pub put_cached :
      String → StepVersion → String → Projection R → ProjectionTable P → ProjectionTable P
  put_cached kind version key value t = HashMap.insert (version, key) (write value) t

  -- `SqliteProjectionCache` as the trait `Cache`
  unfoldable pub sqlite_projection_cache : Cache (Projection R) (ProjectionTable P)
  unfolding get_cached put_cached
  sqlite_projection_cache = record { get = get_cached; put = put_cached }

  -- A projection that is put is read back as what JSON keeps of it, under that version and key and no
  -- other; and pruning to a version keeps its entries and drops those of every other version.
  pub projection_cache-exact :
      (kind version key : String) (p : Projection R) (other v k : String) (t : ProjectionTable P)
      → (get_cached other v k (put_cached kind version key p t)
          ≡ (if version == v && key == k then some (read (write p)) else get_cached other v k t))
        × (get_cached other v k (prune_projections version t)
            ≡ (if v == version then get_cached other v k t else none))
  unfolding get_cached put_cached
  projection_cache-exact kind version key p other v k t = (
    ground (arith, HashMap.get-insert (version, key) (v, k) (write p) t),
    ground (arith, get-prune_projections version v k t),
  )
