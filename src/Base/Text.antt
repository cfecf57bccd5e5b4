-- ===== src/Base/Text.antt =====
-- What the source uses of Go's `strings` and `unicode/utf8`, on byte lists.
use mathlib.Core.List.{reverse}
use kfadapter.Base.{
  ℕ, zero, suc, ◌+◌, ◌≡◌, refl, Bool, true, false, ◌&&◌, ◌||◌, List, [], ◌∷◌, ◌++◌, Option, none,
  some, arith, leb, ap, ◌∙◌, Bool-cases, inl, inr, ◌==◌, if◌then◌else◌, map,
}
use kfadapter.Base.Bytes.{Bytes, codes, bytes_eq, has_byte}

abbrev between : ℕ → ℕ → ℕ → Bool
between lo hi b = leb lo b && leb b hi

-- What the first byte of a sequence calls for: how many bytes follow it, and the range of the next.
utf8_lead : ℕ → Option (ℕ × ℕ × ℕ)
utf8_lead b =
    if leb b 0x7f
    then some (0, 0x80, 0xbf)
    else if between 0xc2 0xdf b
    then some (1, 0x80, 0xbf)
    else if b == 0xe0
    then some (2, 0xa0, 0xbf)
    else if b == 0xed
    then some (2, 0x80, 0x9f)
    else if between 0xe1 0xef b
    then some (2, 0x80, 0xbf)
    else if b == 0xf0
    then some (3, 0x90, 0xbf)
    else if between 0xf1 0xf3 b
    then some (3, 0x80, 0xbf)
    else if b == 0xf4
    then some (3, 0x80, 0x8f)
    else none

utf8_from : ℕ → ℕ → ℕ → Bytes → Bool
utf8_from zero lo hi [] = true
utf8_from (suc n) lo hi [] = false
utf8_from (suc n) lo hi (b ∷ bs) = between lo hi b && utf8_from n 0x80 0xbf bs
utf8_from zero lo hi (b ∷ bs) = elim (utf8_lead b) [
  | none ↦ false
  | some (n, lo', hi') ↦ utf8_from n lo' hi' bs
]

-- `utf8.ValidString`
unfoldable pub utf8_valid : Bytes → Bool
unfolding utf8_lead utf8_from
utf8_valid s = utf8_from 0 0x80 0xbf s

abbrev one_byte_space : ℕ → Bool
one_byte_space b = between 9 13 b || b == 32

abbrev two_byte_space : ℕ → ℕ → Bool
two_byte_space a b = a == 0xc2 && (b == 0x85 || b == 0xa0)

abbrev three_byte_space : ℕ → ℕ → ℕ → Bool
three_byte_space a b c =
    (a == 0xe1 && b == 0x9a && c == 0x80)
    || (a == 0xe2 && b == 0x80 && (between 0x80 0x8a c || c == 0xa8 || c == 0xa9 || c == 0xaf))
    || (a == 0xe2 && b == 0x81 && c == 0x9f)
    || (a == 0xe3 && b == 0x80 && c == 0x80)

-- The bytes that the white space at the head takes; the second reads the text backwards.
space_width : Bytes → ℕ
space_width [] = 0
space_width (a ∷ []) = if one_byte_space a then 1 else 0
space_width (a ∷ b ∷ []) = if one_byte_space a then 1 else if two_byte_space a b then 2 else 0
space_width (a ∷ b ∷ c ∷ r) =
    if one_byte_space a
    then 1
    else if two_byte_space a b
    then 2
    else if three_byte_space a b c
    then 3
    else 0

space_width_back : Bytes → ℕ
space_width_back [] = 0
space_width_back (a ∷ []) = if one_byte_space a then 1 else 0
space_width_back (a ∷ b ∷ []) = if one_byte_space a then 1 else if two_byte_space b a then 2 else 0
space_width_back (a ∷ b ∷ c ∷ r) =
    if one_byte_space a
    then 1
    else if two_byte_space b a
    then 2
    else if three_byte_space c b a
    then 3
    else 0

-- Drops `skip` bytes, then all white space at the head.
strip : (Bytes → ℕ) → ℕ → Bytes → Bytes
strip width skip [] = []
strip width (suc skip) (x ∷ xs) = strip width skip xs
strip width zero (x ∷ xs) = elim (width (x ∷ xs)) [ zero ↦ x ∷ xs | suc k ↦ strip width k xs ]

-- `strings.TrimSpace`
unfoldable pub trim_space : Bytes → Bytes
unfolding strip space_width space_width_back
trim_space s = reverse (strip space_width_back 0 (reverse (strip space_width 0 s)))

pub lower : ℕ → ℕ
lower c = if between b'A' b'Z' c then c + 32 else c

-- `strings.EqualFold` against a word that holds no `k` and no `s`, the letters with a fold outside ASCII.
unfoldable pub equal_fold : Bytes → Bytes → Bool
unfolding lower
equal_fold s t = bytes_eq (map lower s) (map lower t)

-- `strings.Split(s, sep)` at a one-byte separator: never the empty list.
abbrev pub consume : ℕ → List Bytes → List Bytes
consume x [] = (x ∷ []) ∷ []
consume x (part ∷ parts) = (x ∷ part) ∷ parts

unfoldable pub split : ℕ → Bytes → List Bytes
split sep [] = [] ∷ []
split sep (x ∷ xs) = if x == sep then [] ∷ split sep xs else consume x (split sep xs)

-- `strings.Join`
abbrev pub join : ℕ → List Bytes → Bytes
join sep [] = []
join sep (part ∷ []) = part
join sep (part ∷ next ∷ parts) = part ++ (sep ∷ join sep (next ∷ parts))

join-consume :
    (sep x : ℕ) (p : Bytes) (ps : List Bytes)
    → join sep (consume x (p ∷ ps)) ≡ x ∷ join sep (p ∷ ps)
join-consume sep x p [] = refl
join-consume sep x p (q ∷ ps) = refl

split-cons : (sep : ℕ) (s : Bytes) → (p : Bytes) × (ps : List Bytes) × (split sep s ≡ p ∷ ps)
unfolding split
split-cons sep [] = ([], [], refl)
split-cons sep (x ∷ xs) = elim (Bool-cases (x == sep)) [
  | inl e ↦ ([], split sep xs, rw e)
  | inr e ↦ let (p, ps, r) = split-cons sep xs in (x ∷ p, ps, rw (e, r))
]

-- Joining the parts that were split off gives the text back.
pub join-split : (sep : ℕ) (s : Bytes) → join sep (split sep s) ≡ s
unfolding split
join-split sep [] = refl
join-split sep (x ∷ xs) =
    let (p, ps, r) = split-cons sep xs in
    let ih : join sep (p ∷ ps) ≡ xs = rw r at (join-split sep xs) in
    elim (Bool-cases (x == sep)) [
      | inl e ↦ rw (e, r) (ground (arith, ih))
      | inr e ↦ rw (e, r) (join-consume sep x p ps ∙ ap (λ t. x ∷ t) ih)
    ]

-- A text with no separator, then a separator: the text is the first part.
pub split-append :
    (sep : ℕ) (s rest : Bytes)
    → has_byte sep s ≡ false
    → split sep (s ++ (sep ∷ rest)) ≡ s ∷ split sep rest
unfolding split
split-append sep [] rest h = ground arith
split-append sep (x ∷ xs) rest h = ground (arith, split-append sep xs rest)

pub split_whole : (sep : ℕ) (s : Bytes) → has_byte sep s ≡ false → split sep s ≡ s ∷ []
unfolding split
split_whole sep [] h = refl
split_whole sep (x ∷ xs) h = ground (arith, split_whole sep xs)

trims :
    trim_space (codes " " ++ (0xc2 ∷ 0xa0 ∷ codes "a b") ++ (0xe3 ∷ 0x80 ∷ 0x80 ∷ [])) ≡ codes "a b"
unfolding trim_space
trims = refl

checks_utf8 :
    (utf8_valid (0xe4 ∷ 0xb8 ∷ 0xad ∷ []) ≡ true) × (utf8_valid (0xed ∷ 0xa0 ∷ 0x80 ∷ []) ≡ false)
unfolding utf8_valid
checks_utf8 = (refl, refl)
