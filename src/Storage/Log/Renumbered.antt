-- ===== src/Storage/Log/Renumbered.antt =====
-- The second migration of crates/mirrorlane-storage/src/sqlite_message_store.rs: it numbers the rows anew and
-- keeps what is read.
use mirrorlane.Base.{ℕ, suc, ◌≡◌, refl, ap, ◌∙◌, false, Option, List, [], ◌∷◌, arith}
use mirrorlane.Base.Number.{ltb}
use mirrorlane.Base.Sort.{sort_by, insert_by}
use mirrorlane.Core.Message.{ConversationId, MessageEnvelope}
use mirrorlane.Storage.Log.{
  Row, in_order, number_rows, renumber_rows, decode_all, push_message, all_rows,
}

module _ {P : Type 0} where
  -- The numbers ascend by one from `n`, so that no two rows share one.
  abbrev pub Numbered : ℕ → List (Row P) → Type 0
  Numbered n [] = Unit
  Numbered n (row ∷ rows) = (row.seq ≡ suc n) × Numbered (suc n) rows

  number_rows-Numbered : (n : ℕ) (rows : List (Row P)) → Numbered n (number_rows n rows)
  unfolding number_rows
  number_rows-Numbered n [] = tt
  number_rows-Numbered n (row ∷ rows) = (refl, number_rows-Numbered (suc n) rows)

  in_order-Numbered : (n : ℕ) (rows : List (Row P)) → Numbered n rows → in_order rows ≡ rows
  unfolding sort_by insert_by
  in_order-Numbered n [] h = refl
  in_order-Numbered n (r ∷ []) h = refl
  in_order-Numbered n (r ∷ s ∷ rows) (e, (k, h)) =
      let rest : in_order (s ∷ rows) ≡ s ∷ rows = in_order-Numbered (suc n) (s ∷ rows) (k, h) in
      let above : ltb s.seq r.seq ≡ false = ground arith in
      ap (insert_by (λ a b. ltb a.seq b.seq) r) rest ∙ rw (above, insert_by) refl

module _ {P : Type 0} (encode : MessageEnvelope → P) (decode : P → Option MessageEnvelope)
    (conversation_id : P → ConversationId) where
  decode_all-number_rows :
      (n : ℕ) (rows : List (Row P))
      → decode_all encode decode conversation_id (number_rows n rows)
        ≡ decode_all encode decode conversation_id rows
  unfolding number_rows
  decode_all-number_rows n [] = refl
  decode_all-number_rows n (row ∷ rows) =
      ap (push_message (decode row.payload)) (decode_all-number_rows (suc n) rows)

  -- From any rows, numbered with gaps or with a number twice: the migration leaves rows that are numbered
  -- from one without a gap, and what `all` reads of them, a panic included, is what it read before.
  pub all_rows-renumber :
      (rows : List (Row P))
      → Numbered 0 (renumber_rows rows)
        × (all_rows encode decode conversation_id (renumber_rows rows)
            ≡ all_rows encode decode conversation_id rows)
  unfolding renumber_rows all_rows
  all_rows-renumber rows = (
    number_rows-Numbered 0 (in_order rows),
    rw
        (in_order-Numbered 0 (number_rows 0 (in_order rows))
          (number_rows-Numbered 0 (in_order rows)))
        (decode_all-number_rows 0 (in_order rows)),
  )
