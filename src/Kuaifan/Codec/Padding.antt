-- ===== src/Kuaifan/Codec/Padding.antt =====
-- Unpadding takes exactly what padding makes.
use kfadapter.Base.{
  ℕ, zero, suc, ◌+◌, ◌-◌, ◌%◌, ◌≤◌, ◌<◌, ◌≡◌, ◌↔◌, refl, sym, ◌∙◌, ap, true, false, ◌||◌, not, [],
  ◌∷◌, ◌++◌, take, drop, length, replicate, get_or, all, ◌==◌, arith, length-append,
  length-replicate, length-drop, take-append-drop, take-append_at, drop-append_at,
}
use kfadapter.Base.Bytes.{Bytes}
use kfadapter.Kuaifan.Codec.{ok, pkcs7_pad, pkcs7_unpad, strip, block_size}

get_or_last :
    (text : Bytes) (n b k : ℕ) → k ≡ length text + n → get_or (text ++ replicate (suc n) b) k 0 ≡ b
get_or_last [] zero b k h = ground arith
get_or_last [] (suc n) b zero h = absurd (omega (arith, h))
get_or_last [] (suc n) b (suc k) h = get_or_last [] n b k (omega (arith, h))
get_or_last (x ∷ text) n b zero h = absurd (omega (arith, h))
get_or_last (x ∷ text) n b (suc k) h = get_or_last text n b k (omega (arith, h))

all-replicate : (n b : ℕ) → all (λ x. x == b) (replicate n b) ≡ true
all-replicate zero b = refl
all-replicate (suc n) b = ground (arith, all-replicate n b)

all→replicate :
    (b : ℕ) (text : Bytes) → all (λ x. x == b) text ≡ true → text ≡ replicate (length text) b
all→replicate b [] h = refl
all→replicate b (x ∷ text) h = ground (arith, all→replicate b text)

strip-replicate :
    (text : Bytes) (n : ℕ) → n < 16 → strip (text ++ replicate (suc n) (suc n)) 16 (suc n) ≡ ok text
unfolding strip
strip-replicate text n small =
    let size : length (text ++ replicate (suc n) (suc n)) - suc n ≡ length text =
      ground
        (arith, length-append text (replicate (suc n) (suc n)), length-replicate (suc n) (suc n)) in
    ground (
      arith,
      size,
      length-append text (replicate (suc n) (suc n)),
      length-replicate (suc n) (suc n),
      all-replicate (suc n) (suc n),
      take-append_at (length text) text (replicate (suc n) (suc n)) refl,
      drop-append_at (length text) text (replicate (suc n) (suc n)) refl,
    )

unpad-strip :
    (text : Bytes) (padding : ℕ)
    → 0 < length text
    → length text % 16 ≡ 0
    → get_or text (length text - 1) 0 ≡ padding
    → pkcs7_unpad text 16 ≡ strip text 16 padding
unfolding pkcs7_unpad strip
unpad-strip text padding some_byte full last =
    let test : (length text == 0 || not (length text % 16 == 0)) ≡ false = ground arith in
    rw (test, last) refl

-- Padding of any length from one to a block, that fills the last block.
unpad_padded :
    (text : Bytes) (n : ℕ)
    → n < 16
    → (length text + suc n) % 16 ≡ 0
    → pkcs7_unpad (text ++ replicate (suc n) (suc n)) 16 ≡ ok text
unpad_padded text n small full =
    let t = text ++ replicate (suc n) (suc n) in
    let size : length t ≡ suc (length text + n) =
      ground
        (arith, length-append text (replicate (suc n) (suc n)), length-replicate (suc n) (suc n)) in
    let last : get_or t (length t - 1) 0 ≡ suc n =
      get_or_last text n (suc n) (length t - 1) (omega (arith, size)) in
    unpad-strip t (suc n) (omega (arith, size)) (omega (arith, size, full)) last
    ∙ strip-replicate text n small

pub pkcs7_unpad-pkcs7_pad :
    (text : Bytes) → pkcs7_unpad (pkcs7_pad text block_size) block_size ≡ ok text
unfolding pkcs7_pad
pkcs7_unpad-pkcs7_pad text =
    let n = 15 - length text % 16 in
    let count : 16 - length text % 16 ≡ suc n = omega arith in
    let byte : (16 - length text % 16) % 256 ≡ suc n = omega arith in
    rw (byte, count) (unpad_padded text n (omega arith) (omega arith))

strip-ok :
    (text plain : Bytes) (padding : ℕ)
    → strip text 16 padding ≡ ok plain
    → (0 < padding)
      × (padding ≤ 16)
      × (text ≡ plain ++ replicate padding padding)
      × (length text ≡ length plain + padding)
unfolding strip
strip-ok text plain padding h =
    let k = length text - padding in
    let tail : drop k text ≡ replicate (length (drop k text)) padding =
      all→replicate padding (drop k text) (ground arith) in
    let size : length (drop k text) ≡ padding = ground (arith, length-drop k text) in
    let head : plain ≡ take k text = ground arith in
    let parts : text ≡ plain ++ replicate padding padding =
      sym (take-append-drop k text)
      ∙ ap (λ (t : Bytes). t ++ drop k text) (sym head)
      ∙ ap (λ (t : Bytes). plain ++ t) (tail ∙ ap (λ (m : ℕ). replicate m padding) size) in
    (
      ground arith,
      ground arith,
      parts,
      ap length parts
          ∙ length-append plain (replicate padding padding)
          ∙ ap (λ (m : ℕ). length plain + m) (length-replicate padding padding),
    )

pad_of :
    (plain : Bytes) (n : ℕ)
    → n ≡ 16 - length plain % 16
    → pkcs7_pad plain 16 ≡ plain ++ replicate n n
unfolding pkcs7_pad
pad_of plain n e =
    let byte : (16 - length plain % 16) % 256 ≡ n = omega arith in rw (byte, ← e) refl

-- At the block size, unpadding succeeds on the padded texts alone, and gives back the text that was
-- padded.
pub pkcs7_unpad_iff :
    (text plain : Bytes)
    → (pkcs7_unpad text block_size ≡ ok plain) ↔ (text ≡ pkcs7_pad plain block_size)
unfolding pkcs7_unpad
pkcs7_unpad_iff text plain = (
  (λ h.
      let last = get_or text (length text - 1) 0 in
      let stripped : strip text 16 last ≡ ok plain = ground arith in
      let (some_padding, small, parts, size) = strip-ok text plain last stripped in
      let full : length text % 16 ≡ 0 = ground arith in
      parts ∙ sym (pad_of plain last (omega (arith, some_padding, small, size, full)))),
  (λ e. ap (λ (t : Bytes). pkcs7_unpad t 16) e ∙ pkcs7_unpad-pkcs7_pad plain),
)
