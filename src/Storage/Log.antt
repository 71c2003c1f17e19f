-- ===== src/Storage/Log.antt =====
-- crates/mirrorlane-storage/src/sqlite_message_store.rs: the message log as a table. `encode` and
-- `decode` are the JSON of a message, a payload in the type `P` of texts, and `conversation_id` is SQLite's `json_extract` at
-- `$.conversation.id`; a payload that `decode` refuses panics, which is `none`.
pub mod Refines
pub mod Grouped
pub mod Renumbered
use mirrorlane.Base.{
  ℕ, suc, Bool, true, false, String, Option, none, some, List, [], ◌∷◌, ◌++◌, map, string_eq, ◌==◌,
  if◌then◌else◌, arith, ◌≡◌, refl, ◌||◌,
}
use mirrorlane.Base.Lists.{foldl, find, filter, contains}
use mirrorlane.Base.Number.{ltb, max_ℕ}
use mirrorlane.Base.Sort.{sort_by}
use mirrorlane.Core.Message.{MessageId, ConversationId, MessageEnvelope}

pub record Row (P : Type 0) : Type 0 where
  pub id : MessageId
  pub seq : ℕ
  pub payload : P

module _ {P : Type 0} where
  -- `COALESCE(MAX(seq), 0)`
  abbrev pub max_seq : List (Row P) → ℕ
  max_seq [] = 0
  max_seq (row ∷ rows) = max_ℕ row.seq (max_seq rows)

  abbrev pub has_id : MessageId → List (Row P) → Bool
  has_id id [] = false
  has_id id (row ∷ rows) = row.id == id || has_id id rows

  -- `DO UPDATE SET payload`, of the one row with the primary key
  unfoldable pub set_payload : MessageId → P → List (Row P) → List (Row P)
  set_payload id payload [] = []
  set_payload id payload (row ∷ rows) =
      let rest = set_payload id payload rows in
      if row.id == id then record row { payload = payload } ∷ rows else row ∷ rest

  unfoldable pub insert_row : MessageId → P → List (Row P) → List (Row P)
  unfolding set_payload
  insert_row id payload rows =
      if has_id id rows
      then set_payload id payload rows
      else rows ++ record { id = id; seq = suc (max_seq rows); payload = payload } ∷ []

  -- `ORDER BY seq`
  abbrev pub in_order : List (Row P) → List (Row P)
  in_order rows = sort_by (λ a b. ltb a.seq b.seq) rows

  -- `ROW_NUMBER()`, of rows in their order, from the one behind `n`
  unfoldable pub number_rows : ℕ → List (Row P) → List (Row P)
  number_rows n [] = []
  number_rows n (row ∷ rows) = record row { seq = suc n } ∷ number_rows (suc n) rows

  -- The second migration, on the rows
  unfoldable pub renumber_rows : List (Row P) → List (Row P)
  unfolding number_rows
  renumber_rows rows = number_rows 0 (in_order rows)

abbrev pub push_message :
    Option MessageEnvelope → Option (List MessageEnvelope) → Option (List MessageEnvelope)
push_message (some m) (some ms) = some (m ∷ ms)
push_message _ _ = none

module _ {P : Type 0} (encode : MessageEnvelope → P) (decode : P → Option MessageEnvelope)
    (conversation_id : P → ConversationId) where
  -- `append` of `SqliteMessageStore`
  unfoldable pub append_row : MessageEnvelope → List (Row P) → List (Row P)
  unfolding insert_row
  append_row message rows = insert_row message.id (encode message) rows

  abbrev pub decode_row : Option (Row P) → Option MessageEnvelope
  decode_row none = none
  decode_row (some row) = decode row.payload

  -- `get`
  unfoldable pub get_row : MessageId → List (Row P) → Option MessageEnvelope
  get_row id rows = decode_row (find (λ row. row.id == id) rows)

  abbrev pub decode_all : List (Row P) → Option (List MessageEnvelope)
  decode_all [] = some []
  decode_all (row ∷ rows) = push_message (decode row.payload) (decode_all rows)

  -- `all`
  unfoldable pub all_rows : List (Row P) → Option (List MessageEnvelope)
  all_rows rows = decode_all (in_order rows)

  -- `messages_for`
  unfoldable pub rows_for : ConversationId → List (Row P) → Option (List MessageEnvelope)
  rows_for conversation rows =
      decode_all (in_order (filter (λ row. conversation_id row.payload == conversation) rows))

  -- A round of `GROUP BY cid` with `MIN(seq)`: the groups so far, and a row of the conversation
  unfoldable pub put_group :
      ConversationId → ℕ → List (ConversationId × ℕ) → List (ConversationId × ℕ)
  put_group c n [] = (c, n) ∷ []
  put_group c n ((d, m) ∷ groups) =
      let rest = put_group c n groups in
      if d == c then (d, if ltb n m then n else m) ∷ groups else (d, m) ∷ rest

  unfoldable pub group_rows : List (ConversationId × ℕ) → List (Row P) → List (ConversationId × ℕ)
  unfolding put_group
  group_rows groups rows =
      foldl (λ gs row. put_group (conversation_id row.payload) row.seq gs) groups rows

  -- `conversation_ids`, which orders the groups by their `MIN(seq)`
  unfoldable pub table_conversation_ids : List (Row P) → List ConversationId
  unfolding group_rows
  table_conversation_ids rows = map (λ g. g.0) (sort_by (λ a b. ltb a.1 b.1) (group_rows [] rows))
