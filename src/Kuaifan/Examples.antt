-- ===== src/Kuaifan/Examples.antt =====
-- The theorems on the message codec, each at a small message.
use kfadapter.Base.{
  ℕ, ◌-◌, ◌≡◌, ◌↔◌, refl, Option, ap, ◌∙◌, [], ◌∷◌, ◌++◌, some, arith, replicate, length, take,
  length-append, length-replicate, take-append_at,
}
use kfadapter.Base.Bytes.{Bytes, codes}
use kfadapter.Kuaifan.Codec.{
  Codec, Primitives, ok, pkcs7_pad, pkcs7_unpad, encode, decode, encoded_len, block_size,
}
use kfadapter.Kuaifan.Codec.Padding.{pkcs7_unpad_iff}
use kfadapter.Kuaifan.Codec.RoundTrip.{IsLawful, decode-encode}

pkcs7_unpad_iff_example :
    (pkcs7_unpad (codes "{}" ++ replicate 14 14) block_size ≡ ok (codes "{}"))
    ↔ (codes "{}" ++ replicate 14 14 ≡ pkcs7_pad (codes "{}") block_size)
pkcs7_unpad_iff_example = pkcs7_unpad_iff (codes "{}" ++ replicate 14 14) (codes "{}")

-- A cipher that adds nothing, and an encoding of Base64's lengths: its first number says by how much
-- it is longer than the text.
abbrev excess : Bytes → ℕ
excess raw = encoded_len (length raw) - length raw

abbrev filled : Bytes → Bytes
filled [] = []
filled (b ∷ bs) = excess (b ∷ bs) ∷ ((b ∷ bs) ++ replicate (excess (b ∷ bs) - 1) 0)

abbrev emptied : Bytes → Option Bytes
emptied [] = some []
emptied (k ∷ text) = some (take (length (k ∷ text) - k) text)

abbrev plain_primitives : Primitives
plain_primitives = record {
  cbc_encrypt = λ key iv text. text;
  cbc_decrypt = λ key iv text. text;
  base64 = filled;
  unbase64 = emptied;
}

filled_size : (raw : Bytes) → length (filled raw) ≡ encoded_len (length raw)
filled_size [] = refl
filled_size (b ∷ bs) =
    let k = excess (b ∷ bs) in
    let fill = length-append (b ∷ bs) (replicate (k - 1) 0) in
    let rest = length-replicate {A = ℕ} (k - 1) 0 in omega (arith, fill, rest)

emptied-filled : (raw : Bytes) → emptied (filled raw) ≡ some raw
emptied-filled [] = refl
emptied-filled (b ∷ bs) =
    let k = excess (b ∷ bs) in
    let size : length (filled (b ∷ bs)) - k ≡ length (b ∷ bs) =
      omega (arith, filled_size (b ∷ bs)) in
    ap (λ (n : ℕ). some (take n ((b ∷ bs) ++ replicate (k - 1) 0))) size
    ∙ ap some (take-append_at (length (b ∷ bs)) (b ∷ bs) (replicate (k - 1) 0) refl)

plain_primitives-IsLawful : IsLawful plain_primitives
plain_primitives-IsLawful = record {
  cbc_size = λ key iv text. refl;
  decrypt-encrypt = λ key iv text h. refl;
  base64_size = filled_size;
  unbase64-base64 = emptied-filled;
}

abbrev sample_codec : Codec
sample_codec = record { key = replicate 32 1; iv = replicate 16 2 }

decode-encode_example :
    (body : Bytes) × (encode plain_primitives sample_codec (codes "{}") ≡ ok body)
    × (decode plain_primitives sample_codec body ≡ ok (codes "{}"))
decode-encode_example =
    decode-encode plain_primitives sample_codec (codes "{}") plain_primitives-IsLawful (omega arith)
