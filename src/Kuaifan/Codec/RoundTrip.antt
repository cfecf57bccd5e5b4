-- ===== src/Kuaifan/Codec/RoundTrip.antt =====
-- A message of legal size is read back from its encoding.
use kfadapter.Base.{
  ℕ, ◌+◌, ◌-◌, ◌%◌, ◌≤◌, ◌<◌, ◌≡◌, ◌∙◌, ap, ◌++◌, some, length, replicate, arith, length-append,
  length-replicate,
}
use kfadapter.Base.Bytes.{Bytes}
use kfadapter.Kuaifan.Codec.{
  ok, Primitives, Codec, pkcs7_pad, max_plaintext_bytes, encoded_len, encode, decode, decrypt,
  bounded,
}
use kfadapter.Kuaifan.Codec.Padding.{pkcs7_unpad-pkcs7_pad}

-- What the codec relies on: CBC on whole blocks keeps the length and is undone by decryption with
-- the same key and IV, and Base64 decodes what it encoded, at the documented length.
pub record IsLawful (p : Primitives) : Type 0 where
  pub cbc_size : (key iv text : Bytes) → length (p.cbc_encrypt key iv text) ≡ length text
  pub decrypt-encrypt :
      (key iv text : Bytes)
      → length text % 16 ≡ 0
      → p.cbc_decrypt key iv (p.cbc_encrypt key iv text) ≡ text
  pub base64_size : (raw : Bytes) → length (p.base64 raw) ≡ encoded_len (length raw)
  pub unbase64-base64 : (raw : Bytes) → p.unbase64 (p.base64 raw) ≡ some raw

-- Whole blocks, one at least, and at most one more than the text needs.
pub length-pkcs7_pad :
    (text : Bytes)
    → (length (pkcs7_pad text 16) % 16 ≡ 0)
      × (0 < length (pkcs7_pad text 16))
      × (length (pkcs7_pad text 16) ≤ length text + 16)
unfolding pkcs7_pad
length-pkcs7_pad text =
    let padding = 16 - length text % 16 in
    let size : length (text ++ replicate padding (padding % 256)) ≡ length text + padding =
      length-append text (replicate padding (padding % 256))
      ∙ ap (λ (m : ℕ). length text + m) (length-replicate padding (padding % 256)) in
    (omega (arith, size), omega (arith, size), omega (arith, size))

-- A text within the limit is encoded, and the encoding is decoded to that text, where CBC on whole
-- blocks and Base64 are undone by their inverses at the documented lengths.
pub decode-encode :
    (p : Primitives) (c : Codec) (plain : Bytes)
    → IsLawful p
    → length plain ≤ max_plaintext_bytes
    → (body : Bytes) × (encode p c plain ≡ ok body) × (decode p c body ≡ ok plain)
unfolding encode decode decrypt bounded
decode-encode p c plain l small =
    let padded = pkcs7_pad plain 16 in
    let sealed = p.cbc_encrypt c.key c.iv padded in
    let (full, some_block, fits) = length-pkcs7_pad plain in
    let size : length sealed ≡ length padded = l.cbc_size c.key c.iv padded in
    let body_size : length (p.base64 sealed) ≡ encoded_len (length sealed) = l.base64_size sealed in
    (
      p.base64 sealed,
      ground arith,
      rw
          (
            l.unbase64-base64 sealed,
            l.decrypt-encrypt c.key c.iv padded full,
            pkcs7_unpad-pkcs7_pad plain,
          )
          (ground arith),
    )
