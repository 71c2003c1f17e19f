-- ===== src/Base/Split.antt =====
-- `str` at a character: `split_once`, `rsplit(..).next()`, `contains` and `is_empty`.
use Prim.Native.Char.{Char, code}
use Prim.Native.String.append as append
use text.Mathlib.TextEquality.{Char-path}
use mirrorlane.Base.{
  String, ◌<>◌, ◌≡◌, refl, ap, Bool, true, false, ◌||◌, Option, none, some, arith, get_or, inl, inr,
  if◌then◌else◌, Bool-cases,
}
use mirrorlane.Base.Number.{eqb, eqb_iff}

abbrev pub is_empty : String → Bool
is_empty String.[] = true
is_empty (String.◌∷◌ d s) = false

-- `s.contains(c)`
unfoldable pub has_char : Char → String → Bool
has_char c String.[] = false
has_char c (String.◌∷◌ d s) = eqb (code d) (code c) || has_char c s

abbrev pub push_first : Char → Option (String × String) → Option (String × String)
push_first d none = none
push_first d (some (a, b)) = some (String.◌∷◌ d a, b)

unfoldable pub split_once : Char → String → Option (String × String)
split_once c String.[] = none
split_once c (String.◌∷◌ d s) =
    let rest = split_once c s in
    if eqb (code d) (code c) then some (String.[], s) else push_first d rest

-- What is behind the last `c`
unfoldable pub after_last : Char → String → Option String
after_last c String.[] = none
after_last c (String.◌∷◌ d s) = elim (after_last c s) [
  | some t ↦ some t
  | none ↦ if eqb (code d) (code c) then some s else none
]

-- `rsplit(c).next()`, which there always is
unfoldable pub rsplit_next : Char → String → String
rsplit_next c s = get_or (after_last c s) s

same_char : (c d : Char) → eqb (code d) (code c) ≡ true → d ≡ c
same_char c d h = Char-path d c ((eqb_iff (code d) (code c)).0 h)

abbrev after : Char → String → String → String
after c a b = a <> String.◌∷◌ c b

push_first-some :
    (d : Char) (r : Option (String × String)) (a b : String)
    → push_first d r ≡ some (a, b)
    → (t : String) × (r ≡ some (t, b)) × (a ≡ String.◌∷◌ d t)
push_first-some d none a b h = absurd (cc)
push_first-some d (some (t, u)) a b h = (t, ground arith, ground arith)

split_once-hit :
    (c d : Char) (s : String)
    → eqb (code d) (code c) ≡ true
    → split_once c (String.◌∷◌ d s) ≡ some (String.[], s)
unfolding split_once
split_once-hit c d s e = ground (arith, e)

split_once-miss :
    (c d : Char) (s : String)
    → eqb (code d) (code c) ≡ false
    → split_once c (String.◌∷◌ d s) ≡ push_first d (split_once c s)
unfolding split_once
split_once-miss c d s e = ground (arith, e)

has_char-miss :
    (c d : Char) (s : String)
    → eqb (code d) (code c) ≡ false
    → has_char c (String.◌∷◌ d s) ≡ has_char c s
unfolding has_char
has_char-miss c d s e = ground (arith, e)

some_pair :
    {s t a b : String}
    → ◌≡◌ {A = Option (String × String)} (some (s, t)) (some (a, b))
    → (a ≡ s) × (t ≡ b)
some_pair h = (ground arith, ground arith)

-- Of a text that splits, the first part has no `c`, and the parts stand around one.
pub split_once-some :
    (c : Char) (s a b : String)
    → split_once c s ≡ some (a, b)
    → (s ≡ a <> String.◌∷◌ c b) × (has_char c a ≡ false)
split_once-some c String.[] a b h = unfold split_once in absurd (cc)
split_once-some c (String.◌∷◌ d s) a b h = elim (Bool-cases (eqb (code d) (code c))) [
  | inl e ↦
      let (first, second) = some_pair (rw (split_once-hit c d s e) at h) in
      rw (first, second, append.nil (String.◌∷◌ c b), same_char c d e)
        (refl, unfold has_char in refl)
  | inr e ↦
      let (t, split, made) =
        push_first-some d (split_once c s) a b (rw (split_once-miss c d s e) at h) in
      let (parts, free) = split_once-some c s t b split in
      rw (made, append.cons d t (String.◌∷◌ c b), has_char-miss c d t e)
        (ap (String.◌∷◌ d) parts, free)
]

pub split_once-append :
    (c : Char) (a b : String)
    → has_char c a ≡ false
    → split_once c (a <> String.◌∷◌ c b) ≡ some (a, b)
unfolding split_once has_char
split_once-append c String.[] b h =
    rw (append.nil (String.◌∷◌ c b)) (ground (arith, eqb_iff (code c) (code c)))
split_once-append c (String.◌∷◌ d a) b h =
    rw (append.cons d a (String.◌∷◌ c b)) (ground (arith, split_once-append c a b))

after_last-none : (c : Char) (s : String) → has_char c s ≡ false → after_last c s ≡ none
unfolding after_last has_char
after_last-none c String.[] h = refl
after_last-none c (String.◌∷◌ d s) h = ground (arith, after_last-none c s)

after_last-append :
    (c : Char) (a b : String) → has_char c b ≡ false → after_last c (a <> String.◌∷◌ c b) ≡ some b
unfolding after_last
after_last-append c String.[] b h =
    rw (append.nil (String.◌∷◌ c b))
      (ground (arith, after_last-none c b h, eqb_iff (code c) (code c)))
after_last-append c (String.◌∷◌ d a) b h =
    rw (append.cons d a (String.◌∷◌ c b)) (ground (arith, after_last-append c a b h))

-- Behind the last `c`
pub rsplit_next-append :
    (c : Char) (a b : String) → has_char c b ≡ false → rsplit_next c (a <> String.◌∷◌ c b) ≡ b
unfolding rsplit_next
rsplit_next-append c a b h = ground (arith, after_last-append c a b h)
