-- ===== src/Storage/Log/Refines.antt =====
-- The table of crates/mirrorlane-storage/src/sqlite_message_store.rs against the messages that it stands
-- for: the same promise that the log in memory keeps.
use text.Mathlib.TextEquality.{eq_iff}
use mirrorlane.Base.{
  ℕ, suc, ◌≡◌, refl, sym, ap, ◌∙◌, true, false, Option, some, List, [], ◌∷◌, ◌++◌, arith, string_eq,
  ◌==◌, Bool-cases, inl, inr,
}
use mirrorlane.Base.Lists.{filter, contains, foldl}
use mirrorlane.Base.Number.{ltb}
use mirrorlane.Base.Sort.{sort_by, insert_by}
use mirrorlane.Core.Message.{MessageId, ConversationId, MessageEnvelope}
use mirrorlane.Core.MessageLog.{messages_for}
use mirrorlane.Core.MessageLog.Spec.{ids, find_id, replace_or_push, entries}
use mirrorlane.Storage.Log.{
  Row, max_seq, has_id, set_payload, append_row, get_row, decode_all, in_order, all_rows, rows_for,
}

module _ {P : Type 0} (encode : MessageEnvelope → P) (decode : P → Option MessageEnvelope)
    (conversation_id : P → ConversationId) where
  -- The rows hold the messages in order, with ascending numbers above `low`.
  abbrev pub Holds : ℕ → List (Row P) → List MessageEnvelope → Type 0
  Holds low [] [] = Unit
  Holds low [] (m ∷ ms) = ⊥
  Holds low (r ∷ rs) [] = ⊥
  Holds low (r ∷ rs) (m ∷ ms) =
      (ltb low r.seq ≡ true) × (r.id ≡ m.id) × (r.payload ≡ encode m) × Holds r.seq rs ms

  has_id-Holds :
      (id : MessageId) (low : ℕ) (rs : List (Row P)) (ms : List MessageEnvelope)
      → Holds low rs ms
      → has_id id rs ≡ contains id (ids ms)
  has_id-Holds id low [] [] h = refl
  has_id-Holds id low [] (m ∷ ms) h = absurd h
  has_id-Holds id low (r ∷ rs) [] h = absurd h
  has_id-Holds id low (r ∷ rs) (m ∷ ms) (b, i, p, h) = ground (arith, has_id-Holds id r.seq rs ms h)

  set_payload-Holds :
      (m : MessageEnvelope) (low : ℕ) (rs : List (Row P)) (ms : List MessageEnvelope)
      → Holds low rs ms
      → contains m.id (ids ms) ≡ true
      → Holds low (set_payload m.id (encode m) rs) (replace_or_push ms m)
  unfolding set_payload replace_or_push
  set_payload-Holds m low [] [] h c = absurd (cc)
  set_payload-Holds m low [] (x ∷ ms) h c = absurd h
  set_payload-Holds m low (r ∷ rs) [] h c = absurd h
  set_payload-Holds m low (r ∷ rs) (x ∷ ms) (b, i, p, h) c = elim (Bool-cases (x.id == m.id)) [
    | inl t ↦
        let same : (r.id == m.id) ≡ true = rw i t in
        rw (t, replace_or_push) (rw (same, set_payload) (b, rw i ((eq_iff x.id m.id).0 t), refl, h))
    | inr n ↦
        let other : (r.id == m.id) ≡ false = rw i n in
        let rest = set_payload-Holds m r.seq rs ms h (ground arith) in
        rw (n, replace_or_push) (rw (other, set_payload) (b, i, p, rest))
  ]

  push-Holds :
      (m : MessageEnvelope) (low n : ℕ) (rs : List (Row P)) (ms : List MessageEnvelope)
      → Holds low rs ms
      → contains m.id (ids ms) ≡ false
      → ltb low n ≡ true
      → ltb (max_seq rs) n ≡ true
      → Holds low
          (rs ++ record { id = m.id; seq = n; payload = encode m } ∷ [])
          (replace_or_push ms m)
  unfolding replace_or_push
  push-Holds m low n [] [] h c l k = (l, refl, refl, tt)
  push-Holds m low n [] (x ∷ ms) h c l k = absurd h
  push-Holds m low n (r ∷ rs) [] h c l k = absurd h
  push-Holds m low n (r ∷ rs) (x ∷ ms) (b, i, p, h) c l k =
      let other : (x.id == m.id) ≡ false = ground arith in
      rw (other, replace_or_push)
        (b, i, p, push-Holds m r.seq n rs ms h (ground arith) (ground arith) (ground arith))

  append_row-Holds :
      (m : MessageEnvelope) (rs : List (Row P)) (ms : List MessageEnvelope)
      → Holds 0 rs ms
      → Holds 0 (append_row encode decode conversation_id m rs) (replace_or_push ms m)
  unfolding append_row
  append_row-Holds m rs ms h = elim (Bool-cases (has_id m.id rs)) [
    | inl t ↦
        rw (t, append_row) (set_payload-Holds m 0 rs ms h (sym (has_id-Holds m.id 0 rs ms h) ∙ t))
    | inr n ↦
        rw (n, append_row)
          (push-Holds m 0 (suc (max_seq rs)) rs ms h (sym (has_id-Holds m.id 0 rs ms h) ∙ n)
            (ground arith) (ground arith))
  ]

  pub appends-Holds :
      (appended : List MessageEnvelope) (rs : List (Row P)) (ms : List MessageEnvelope)
      → Holds 0 rs ms
      → Holds 0
          (foldl (λ t m. append_row encode decode conversation_id m t) rs appended)
          (foldl replace_or_push ms appended)
  appends-Holds [] rs ms h = h
  appends-Holds (m ∷ appended) rs ms h =
      appends-Holds appended (append_row encode decode conversation_id m rs) (replace_or_push ms m)
        (append_row-Holds m rs ms h)

  in_order-Holds :
      (low : ℕ) (rs : List (Row P)) (ms : List MessageEnvelope) → Holds low rs ms → in_order rs ≡ rs
  unfolding sort_by insert_by
  in_order-Holds low [] ms h = refl
  in_order-Holds low (r ∷ rs) [] h = absurd h
  in_order-Holds low (r ∷ []) (m ∷ ms) (b, i, p, h) = refl
  in_order-Holds low (r ∷ s ∷ rs) (m ∷ []) (b, i, p, h) = absurd h
  in_order-Holds low (r ∷ s ∷ rs) (m ∷ x ∷ ms) (b, i, p, h) =
      let rest : in_order (s ∷ rs) ≡ s ∷ rs = in_order-Holds r.seq (s ∷ rs) (x ∷ ms) h in
      let above : ltb s.seq r.seq ≡ false = ground arith in
      ap (insert_by (λ a b. ltb a.seq b.seq) r) rest ∙ rw (above, insert_by) refl

  Holds-weaken :
      (low high : ℕ) (rs : List (Row P)) (ms : List MessageEnvelope)
      → ltb low high ≡ true
      → Holds high rs ms
      → Holds low rs ms
  Holds-weaken low high [] [] l h = tt
  Holds-weaken low high [] (m ∷ ms) l h = absurd h
  Holds-weaken low high (r ∷ rs) [] l h = absurd h
  Holds-weaken low high (r ∷ rs) (m ∷ ms) l (b, i, p, h) = (ground arith, i, p, h)

  filter-Holds :
      ((m : MessageEnvelope) → conversation_id (encode m) ≡ m.conversation.id)
      → (c : ConversationId) (low : ℕ) (rs : List (Row P)) (ms : List MessageEnvelope)
      → Holds low rs ms
      → Holds low
          (filter (λ row. conversation_id row.payload == c) rs)
          (filter (λ m. m.conversation.id == c) ms)
  filter-Holds extract c low [] [] h = tt
  filter-Holds extract c low [] (m ∷ ms) h = absurd h
  filter-Holds extract c low (r ∷ rs) [] h = absurd h
  filter-Holds extract c low (r ∷ rs) (m ∷ ms) (b, i, p, h) =
      let rest = filter-Holds extract c r.seq rs ms h in
      let same : conversation_id r.payload ≡ m.conversation.id = rw p (extract m) in
      elim (Bool-cases (m.conversation.id == c)) [
        | inl t ↦ rw (same, t) (b, i, p, rest)
        | inr n ↦ rw (same, n) (Holds-weaken low r.seq _ _ b rest)
      ]

  module _ (round : (m : MessageEnvelope) → decode (encode m) ≡ some m) where
    decode_all-Holds :
        (low : ℕ) (rs : List (Row P)) (ms : List MessageEnvelope)
        → Holds low rs ms
        → decode_all encode decode conversation_id rs ≡ some ms
    decode_all-Holds low [] [] h = refl
    decode_all-Holds low [] (m ∷ ms) h = absurd h
    decode_all-Holds low (r ∷ rs) [] h = absurd h
    decode_all-Holds low (r ∷ rs) (m ∷ ms) (b, i, p, h) =
        rw (p, round m, decode_all-Holds r.seq rs ms h)

    get_row-Holds :
        (id : MessageId) (low : ℕ) (rs : List (Row P)) (ms : List MessageEnvelope)
        → Holds low rs ms
        → get_row encode decode conversation_id id rs ≡ find_id id ms
    unfolding get_row find_id
    get_row-Holds id low [] [] h = refl
    get_row-Holds id low [] (m ∷ ms) h = absurd h
    get_row-Holds id low (r ∷ rs) [] h = absurd h
    get_row-Holds id low (r ∷ rs) (m ∷ ms) (b, i, p, h) =
        ground (arith, round m, get_row-Holds id r.seq rs ms h)

    -- A table that messages were appended to in turn stands for the entries of those messages, as the log
    -- in memory does: `all` reads them back in order, with no panic, and `get` finds each by its id;
    -- this where the JSON of a message reads back as the message.
    pub table_refines_entries :
        (appended : List MessageEnvelope)
        → (all_rows encode decode conversation_id
              (foldl (λ t m. append_row encode decode conversation_id m t) [] appended)
            ≡ some (entries appended))
          × ((j : MessageId)
              → get_row encode decode conversation_id j
                  (foldl (λ t m. append_row encode decode conversation_id m t) [] appended)
                ≡ find_id j (entries appended))
    unfolding all_rows entries
    table_refines_entries appended =
        let h : Holds 0 (foldl (λ t m. append_row encode decode conversation_id m t) [] appended)
            (entries appended) =
          appends-Holds appended [] [] tt in
        (
          rw (in_order-Holds 0 _ (entries appended) h) (decode_all-Holds 0 _ (entries appended) h),
          λ j. get_row-Holds j 0 _ (entries appended) h,
        )

    -- Reading one conversation of such a table gives its messages among the entries, in order; this where
    -- the JSON of a message reads back as the message and has its conversation id at the path that
    -- the query extracts.
    pub table-messages_for :
        ((m : MessageEnvelope) → conversation_id (encode m) ≡ m.conversation.id)
        → (c : ConversationId) (appended : List MessageEnvelope)
        → rows_for encode decode conversation_id c
            (foldl (λ t m. append_row encode decode conversation_id m t) [] appended)
          ≡ some (messages_for c (entries appended))
    unfolding rows_for messages_for entries
    table-messages_for extract c appended =
        let h = filter-Holds extract c 0 _ _ (appends-Holds appended [] [] tt) in
        rw (in_order-Holds 0 _ _ h) (decode_all-Holds 0 _ _ h)
