-- ===== src/Storage/Log/Grouped.antt =====
-- The conversation ids that crates/mirrorlane-storage/src/sqlite_message_store.rs reads with `GROUP BY`,
-- against those of the log in memory.
use mirrorlane.Base.{
  ℕ, ◌≡◌, refl, ap, ◌∙◌, true, false, List, [], ◌∷◌, ◌++◌, map, arith, string_eq, ◌==◌, Bool-cases,
  inl, inr, Option,
}
use mirrorlane.Base.Lists.{contains, foldl}
use mirrorlane.Base.Number.{ltb}
use mirrorlane.Base.Sort.{sort_by, insert_by}
use mirrorlane.Core.Message.{ConversationId, MessageEnvelope}
use mirrorlane.Core.MessageLog.{see, conversation_ids}
use mirrorlane.Core.MessageLog.Spec.{entries}
use mirrorlane.Storage.Log.{Row, append_row, put_group, group_rows, table_conversation_ids}
use mirrorlane.Storage.Log.Refines.{Holds, appends-Holds}

abbrev Groups : Type 0
Groups = List (ConversationId × ℕ)

abbrev names : Groups → List ConversationId
names groups = map (λ g. g.0) groups

-- The numbers of the groups ascend, above `low` and at most `high`.
abbrev Ascend : ℕ → ℕ → Groups → Type 0
Ascend low high [] = Unit
Ascend low high (g ∷ gs) = (ltb low g.1 ≡ true) × (ltb high g.1 ≡ false) × Ascend g.1 high gs

sort_by-Ascend :
    (low high : ℕ) (gs : Groups) → Ascend low high gs → sort_by (λ a b. ltb a.1 b.1) gs ≡ gs
unfolding sort_by insert_by
sort_by-Ascend low high [] a = refl
sort_by-Ascend low high (g ∷ []) a = refl
sort_by-Ascend low high (g ∷ h ∷ gs) (l, b, a) =
    let rest : sort_by (λ x y. ltb x.1 y.1) (h ∷ gs) ≡ h ∷ gs =
      sort_by-Ascend g.1 high (h ∷ gs) a in
    let above : ltb h.1 g.1 ≡ false = ground arith in
    ap (insert_by (λ (x : ConversationId × ℕ) y. ltb x.1 y.1) g) rest ∙ rw (above, insert_by) refl

module _ {P : Type 0} (encode : MessageEnvelope → P) (decode : P → Option MessageEnvelope)
    (conversation_id : P → ConversationId) where
  -- A group that is there keeps its number, which is the least.
  put_group-known :
      (c : ConversationId) (n low high : ℕ) (gs : Groups)
      → Ascend low high gs
      → ltb high n ≡ true
      → contains c (names gs) ≡ true
      → put_group encode decode conversation_id c n gs ≡ gs
  unfolding put_group
  put_group-known c n low high [] a l h = absurd (cc)
  put_group-known c n low high ((d, m) ∷ gs) (b, k, a) l h = elim (Bool-cases (d == c)) [
    | inl t ↦ let least : ltb n m ≡ false = ground arith in rw (t, least, put_group) refl
    | inr f ↦
        rw (f, put_group)
          (ap (λ (rest : Groups). (d, m) ∷ rest) (put_group-known c n m high gs a l (ground arith)))
  ]

  put_group-new :
      (c : ConversationId) (n low high : ℕ) (gs : Groups)
      → Ascend low high gs
      → ltb low n ≡ true
      → ltb high n ≡ true
      → contains c (names gs) ≡ false
      → (put_group encode decode conversation_id c n gs ≡ gs ++ (c, n) ∷ [])
        × Ascend low n (gs ++ (c, n) ∷ [])
  unfolding put_group
  put_group-new c n low high [] a b l h = (refl, (b, ground arith, tt))
  put_group-new c n low high ((d, m) ∷ gs) (e, k, a) b l h =
      let (put, up) = put_group-new c n m high gs a (ground arith) l (ground arith) in
      let other : (d == c) ≡ false = ground arith in
      let still : ltb n m ≡ false = ground arith in
      (rw (other, put_group) (ap (λ (rest : Groups). (d, m) ∷ rest) put), (e, still, up))

  Ascend-weaken :
      (low high high' : ℕ) (gs : Groups)
      → ltb high high' ≡ true
      → Ascend low high gs
      → Ascend low high' gs
  Ascend-weaken low high high' [] l a = tt
  Ascend-weaken low high high' (g ∷ gs) l (b, k, a) =
      (b, ground arith, Ascend-weaken g.1 high high' gs l a)

  names-append :
      (gs : Groups) (g : ConversationId × ℕ) → names (gs ++ g ∷ []) ≡ names gs ++ g.0 ∷ []
  names-append [] g = refl
  names-append (h ∷ gs) g = ap (λ ns. h.0 ∷ ns) (names-append gs g)

  -- Grouping the rows goes as seeing the messages does.
  group_rows-see :
      ((m : MessageEnvelope) → conversation_id (encode m) ≡ m.conversation.id)
      → (high : ℕ) (gs : Groups) (rs : List (Row P)) (ms : List MessageEnvelope)
      → Holds encode decode conversation_id high rs ms
      → Ascend 0 high gs
      → ((top : ℕ) × Ascend 0 top (group_rows encode decode conversation_id gs rs))
        × (names (group_rows encode decode conversation_id gs rs) ≡ foldl see (names gs) ms)
  unfolding group_rows
  group_rows-see extract high gs [] [] h a = ((high, a), refl)
  group_rows-see extract high gs [] (m ∷ ms) h a = absurd h
  group_rows-see extract high gs (r ∷ rs) [] h a = absurd h
  group_rows-see extract high gs (r ∷ rs) (m ∷ ms) (b, i, p, h) a =
      let c = m.conversation.id in
      let same : conversation_id r.payload ≡ c = rw p (extract m) in
      elim (Bool-cases (contains c (names gs))) [
        | inl old ↦
            rw (same, put_group-known c r.seq 0 high gs a b old, old)
              (group_rows-see extract r.seq gs rs ms h (Ascend-weaken 0 high r.seq gs b a))
        | inr fresh ↦
            let (put, up) = put_group-new c r.seq 0 high gs a (ground arith) b fresh in
            let (top, seen) = group_rows-see extract r.seq (gs ++ (c, r.seq) ∷ []) rs ms h up in
            rw (same, put, fresh) (top, rw (names-append gs (c, r.seq)) at seen)
      ]

  -- The conversation ids of a table that messages were appended to in turn are those of the entries of
  -- the messages, each once and in the order of its first message; this where the JSON of a message has its
  -- conversation id at the path that the query extracts.
  pub table_conversation_ids-entries :
      ((m : MessageEnvelope) → conversation_id (encode m) ≡ m.conversation.id)
      → (appended : List MessageEnvelope)
      → table_conversation_ids encode decode conversation_id
          (foldl (λ t m. append_row encode decode conversation_id m t) [] appended)
        ≡ conversation_ids (entries appended)
  unfolding table_conversation_ids conversation_ids entries
  table_conversation_ids-entries extract appended =
      let rows = foldl (λ t m. append_row encode decode conversation_id m t) [] appended in
      let ((top, up), seen) =
        group_rows-see extract 0 [] rows (entries appended)
          (appends-Holds encode decode conversation_id appended [] [] tt) tt in
      ap names (sort_by-Ascend 0 top (group_rows encode decode conversation_id [] rows) up) ∙ seen
