-- ===== src/Runtime/Cache/Laws.antt =====
-- What the decorator relies on of a cache, and the cache in memory keeps it. The keys of the
-- decorator are a kind, a version and a text.
use mirrorlane.Base.{String, ◌≡◌, ◌≢◌, none, some, arith, triple_eq, triple_beq_iff}
use mirrorlane.Base.HashMap
use mirrorlane.Runtime.Step.{StepVersion}
use mirrorlane.Runtime.Cache.{Cache, InMemoryCache, get, put, in_memory_cache}

-- A put at a key that was not there changes no entry that is there.
abbrev pub KeepsEntries : {V S : Type 0} → Cache V S → Type 0
KeepsEntries {V} {S} c =
    (kind : String) (version : StepVersion) (key j h y : String) (o out : V) (s : S)
    → c.get kind version key s ≡ none
    → c.get j h y s ≡ some out
    → c.get j h y (c.put kind version key o s) ≡ some out

pub record CacheLaws {V S : Type 0} (c : Cache V S) : Type 0 where
  -- What was put is there.
  pub get-put_self :
      (kind : String) (version : StepVersion) (key : String) (out : V) (s : S)
      → c.get kind version key (c.put kind version key out s) ≡ some out
  -- A put at a key that was not there changes no entry that is there.
  pub get-put_other :
      (kind : String) (version : StepVersion) (key j h y : String) (o out : V) (s : S)
      → c.get kind version key s ≡ none
      → c.get j h y s ≡ some out
      → c.get j h y (c.put kind version key o s) ≡ some out
  -- A put at one key changes nothing at another key of the kind and the version.
  pub get-put_key :
      (kind : String) (version : StepVersion) (key y : String) (o : V) (s : S)
      → y ≢ key
      → c.get kind version y (c.put kind version key o s) ≡ c.get kind version y s
  -- A put under one version changes no entry of another.
  pub get-put_version :
      (kind : String) (version : StepVersion) (key j h y : String) (o : V) (s : S)
      → h ≢ version
      → c.get j h y (c.put kind version key o s) ≡ c.get j h y s

module _ {V : Type 0} where
  in_memory-put_self :
      (k v x : String) (out : V) (s : InMemoryCache V) → get k v x (put k v x out s) ≡ some out
  unfolding get put
  in_memory-put_self k v x out s = HashMap.get-insert_self (k, v, x) out s

  in_memory-put_other :
      (k v x j h y : String) (o out : V) (s : InMemoryCache V)
      → get k v x s ≡ none
      → get j h y s ≡ some out
      → get j h y (put k v x o s) ≡ some out
  unfolding get put
  in_memory-put_other k v x j h y o out s miss hit = ground (
    arith,
    miss,
    hit,
    HashMap.get-insert (k, v, x) (j, h, y) o s,
    triple_beq_iff (k, v, x) (j, h, y),
  )

  in_memory-put_key :
      (k v x y : String) (o : V) (s : InMemoryCache V)
      → y ≢ x
      → get k v y (put k v x o s) ≡ get k v y s
  unfolding get put
  in_memory-put_key k v x y o s other =
      ground (arith, HashMap.get-insert (k, v, x) (k, v, y) o s, triple_beq_iff (k, v, x) (k, v, y))

  in_memory-put_version :
      (k v x j h y : String) (o : V) (s : InMemoryCache V)
      → h ≢ v
      → get j h y (put k v x o s) ≡ get j h y s
  unfolding get put
  in_memory-put_version k v x j h y o s other =
      ground (arith, HashMap.get-insert (k, v, x) (j, h, y) o s, triple_beq_iff (k, v, x) (j, h, y))

  pub in_memory_cache-CacheLaws : CacheLaws (in_memory_cache {V = V})
  unfolding in_memory_cache
  in_memory_cache-CacheLaws = record {
    get-put_self = in_memory-put_self;
    get-put_other = in_memory-put_other;
    get-put_key = in_memory-put_key;
    get-put_version = in_memory-put_version;
  }
