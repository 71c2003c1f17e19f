-- ===== src/Storage/Derived.antt =====
-- crates/mirrorlane-storage/src/sqlite_derived_output_cache.rs: the durable cache of derivations, a table
-- with the primary key (version, conversation, content). `write` and `read` are the JSON of a derivation,
-- in the type `P` of texts. Nothing is assumed of them: without its feature `float_roundtrip`, serde_json may
-- read a number back with another last digit. `read` is applied to texts of `write` only. The panic on a
-- text that is no derivation, as that of one with a NaN would be, has no counterpart here: scores and weights are
-- sums of confidences and their quotients by a positive maximum.
use text.Mathlib.TextEquality.{eq_iff}
use mirrorlane.Base.{
  ◌≡◌, ap, Bool, false, not, ◌&&◌, String, Option, none, some, arith, string_eq, triple_eq, ◌==◌,
  if◌then◌else◌,
}
use mirrorlane.Base.HashMap
use mirrorlane.Base.HashMap.{HashMap}
use mirrorlane.Core.Message.{ConversationId}
use mirrorlane.Core.Derivation.{StepVersion, ConversationDerivation, DerivedOutputCache}

-- The payload under its key
abbrev pub DerivedTable : Type 0 → Type 0
DerivedTable P = HashMap (String × String × String) P

-- `conversation = ?1 AND NOT (version = ?2 AND content = ?3)` of the row under the key
unfoldable pub superseded : ConversationId → StepVersion → String → String × String × String → Bool
superseded conversation keep_version keep_content (v, c, h) =
    c == conversation && not (v == keep_version && h == keep_content)

-- `prune_superseded`: the `DELETE` of the rows that are
unfoldable pub prune_derived :
    {P : Type 0} → ConversationId → StepVersion → String → DerivedTable P → DerivedTable P
prune_derived conversation keep_version keep_content t =
    HashMap.drop_where (superseded conversation keep_version keep_content) t

-- A lookup after pruning: nothing under a superseded key, and every other key as before.
pub get-prune_derived :
    {P : Type 0} (c : ConversationId) (version : StepVersion) (content : String)
    (k : String × String × String) (t : DerivedTable P)
    → HashMap.get k (prune_derived c version content t)
      ≡ (if superseded c version content k then none else HashMap.get k t)
unfolding prune_derived
get-prune_derived c version content k t = HashMap.get-drop_where (superseded c version content) k t

pub get-prune_other :
    {P : Type 0} (c : ConversationId) (version : StepVersion) (content : String) (v : StepVersion)
    (j : ConversationId) (h : String) (t : DerivedTable P)
    → (c == j) ≡ false
    → HashMap.get (v, j, h) (prune_derived c version content t) ≡ HashMap.get (v, j, h) t
unfolding superseded
get-prune_other c version content v j h t other =
    ground (arith, get-prune_derived c version content (v, j, h) t, eq_iff j c, eq_iff c j)

pub get-prune_kept :
    {P : Type 0} (c : ConversationId) (version : StepVersion) (content : String)
    (t : DerivedTable P)
    → HashMap.get (version, c, content) (prune_derived c version content t)
      ≡ HashMap.get (version, c, content) t
unfolding superseded
get-prune_kept c version content t = ground (
  arith,
  get-prune_derived c version content (version, c, content) t,
  eq_iff version version,
  eq_iff content content,
)

module _ {R P : Type 0} (write : ConversationDerivation R → P)
    (read : P → ConversationDerivation R) where
  abbrev pub read_payload : Option P → Option (ConversationDerivation R)
  read_payload none = none
  read_payload (some payload) = some (read payload)

  -- `get` of `SqliteDerivedOutputCache`
  unfoldable pub get_derived :
      StepVersion → ConversationId → String → DerivedTable P → Option (ConversationDerivation R)
  get_derived version conversation content t =
      read_payload (HashMap.get (version, conversation, content) t)

  -- `put`
  unfoldable pub put_derived :
      StepVersion
      → ConversationId
      → String
      → ConversationDerivation R
      → DerivedTable P
      → DerivedTable P
  put_derived version conversation content value t =
      HashMap.insert (version, conversation, content) (write value) t

  pub get-put_derived :
      (version : StepVersion) (c : ConversationId) (content : String) (d : ConversationDerivation R)
      (v : StepVersion) (j : ConversationId) (h : String) (t : DerivedTable P)
      → get_derived v j h (put_derived version c content d t) ≡ (
          if ◌==◌ ⦃e = triple_eq⦄ (version, c, content) (v, j, h)
          then some (read (write d))
          else get_derived v j h t)
  unfolding get_derived put_derived
  get-put_derived version c content d v j h t =
      ground (arith, HashMap.get-insert (version, c, content) (v, j, h) (write d) t)

  -- The table keeps the contract of the trait, with the pruning as its `reclaim_superseded`.
  unfoldable pub sqlite_derived_output_cache : DerivedOutputCache R (DerivedTable P)
  unfolding get_derived superseded
  sqlite_derived_output_cache = record {
    get = get_derived;
    put = put_derived;
    reclaim_superseded = prune_derived;
    back = λ d. read (write d);
    get-put = get-put_derived;
    get-reclaim_other = λ c version content v j h t other.
        ap read_payload (get-prune_other c version content v j h t other);
    get-reclaim_kept = λ c version content t. ap read_payload (get-prune_kept c version content t);
  }
