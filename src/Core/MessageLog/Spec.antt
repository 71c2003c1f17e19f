-- ===== src/Core/MessageLog/Spec.antt =====
-- What a message store promises, whatever it is made of: the messages in append order, each id
-- once. `append` replaces a message in place, or adds it at the end.
use mirrorlane.Base.{
  ◌≡◌, refl, true, false, Option, none, some, List, [], ◌∷◌, ◌++◌, map, arith, string_eq, ◌==◌,
  if◌then◌else◌, Bool-cases, inl, inr,
}
use text.Mathlib.TextEquality.{eq_iff}
use mirrorlane.Base.Lists.{In, here, there, contains, Nodup, foldl, Nodup-append_one}
use mirrorlane.Core.Message.{MessageId, MessageEnvelope}

abbrev pub ids : List MessageEnvelope → List MessageId
ids ms = map (λ m. m.id) ms

unfoldable pub replace_or_push : List MessageEnvelope → MessageEnvelope → List MessageEnvelope
replace_or_push [] message = message ∷ []
replace_or_push (m ∷ ms) message =
    if m.id == message.id then message ∷ ms else m ∷ replace_or_push ms message

unfoldable pub find_id : MessageId → List MessageEnvelope → Option MessageEnvelope
find_id id [] = none
find_id id (m ∷ ms) = if m.id == id then some m else find_id id ms

-- All that was appended, in order.
unfoldable pub entries : List MessageEnvelope → List MessageEnvelope
entries appended = foldl replace_or_push [] appended

pub find_id-replace_or_push :
    (j : MessageId) (message : MessageEnvelope) (ms : List MessageEnvelope)
    → find_id j (replace_or_push ms message)
      ≡ (if message.id == j then some message else find_id j ms)
unfolding find_id replace_or_push
find_id-replace_or_push j message [] = refl
find_id-replace_or_push j message (m ∷ ms) = ground (
  arith,
  eq_iff m.id message.id,
  eq_iff m.id j,
  eq_iff message.id j,
  find_id-replace_or_push j message ms,
)

pub ids-replace_or_push :
    (message : MessageEnvelope) (ms : List MessageEnvelope)
    → ids (replace_or_push ms message)
      ≡ (if contains message.id (ids ms) then ids ms else ids ms ++ message.id ∷ [])
unfolding replace_or_push
ids-replace_or_push message [] = refl
ids-replace_or_push message (m ∷ ms) =
    ground (arith, eq_iff m.id message.id, ids-replace_or_push message ms)

pub contains-ids-find_id :
    (j : MessageId) (ms : List MessageEnvelope)
    → contains j (ids ms) ≡ elim (find_id j ms) [ none ↦ false | some _ ↦ true ]
unfolding find_id
contains-ids-find_id j [] = refl
contains-ids-find_id j (m ∷ ms) = ground (arith, contains-ids-find_id j ms)

pub Nodup-replace_or_push :
    (message : MessageEnvelope) (ms : List MessageEnvelope)
    → Nodup (ids ms)
    → Nodup (ids (replace_or_push ms message))
Nodup-replace_or_push message ms u =
    rw ids-replace_or_push (elim (Bool-cases (contains message.id (ids ms))) [
      | inl old ↦ rw old u
      | inr new ↦ rw new (Nodup-append_one message.id (ids ms) u new)
    ])

-- With each id once, a message in the list is the one that its id finds.
pub find_id_of_In :
    (m : MessageEnvelope) (ms : List MessageEnvelope)
    → Nodup (ids ms)
    → In m ms
    → find_id m.id ms ≡ some m
unfolding find_id
find_id_of_In m [] u i = elim i [ ]
find_id_of_In m (x ∷ xs) u (here e) = rw e (ground (arith, eq_iff x.id x.id))
find_id_of_In m (x ∷ xs) u (there i) =
    ground (arith, find_id_of_In m xs u.1 i, contains-ids-find_id m.id xs, eq_iff x.id m.id)

pub In_of_find_id :
    (j : MessageId) (m : MessageEnvelope) (ms : List MessageEnvelope)
    → find_id j ms ≡ some m
    → In m ms × (m.id ≡ j)
unfolding find_id
In_of_find_id j m [] h = absurd (cc)
In_of_find_id j m (x ∷ xs) h = elim (Bool-cases (x.id == j)) [
  | inl p ↦ (here (ground arith), ground (arith, eq_iff x.id j))
  | inr q ↦ let (i, e) = In_of_find_id j m xs (ground arith) in (there i, e)
]
