-- ===== src/Kuaifan/Codec.antt =====
-- internal/kuaifan/codec.go: PKCS#7 padding, and the encryption of message bodies. AES-CBC of a whole
-- number of blocks and standard Base64 are the fields of `Primitives`.
use kfadapter.Base.{
  ℕ, zero, suc, ◌+◌, ◌-◌, ◌*◌, ◌/◌, ◌%◌, ◌≤◌, ◌<◌, ◌≡◌, refl, Bool, true, false, ◌&&◌, ◌||◌, not,
  List, [], ◌∷◌, ◌++◌, Option, none, some, take, drop, length, replicate, get_or, all, ltb, ◌==◌,
  if◌then◌else◌,
}
use kfadapter.Base.Bytes.{Bytes}
pub mod Padding
pub mod RoundTrip

pub data CodecError : Type 0 where
  malformed_ciphertext invalid_padding response_too_large : CodecError

pub data Result {ℓ} (A : Type ℓ) : Type ℓ where
  ok : A → Result A
  err : CodecError → Result A

-- 1 MiB
abbrev pub max_plaintext_bytes : ℕ
max_plaintext_bytes = 1_048_576

abbrev pub block_size : ℕ
block_size = 16

unfoldable pub pkcs7_pad : Bytes → ℕ → Bytes
pkcs7_pad text size =
    let padding = size - length text % size in text ++ replicate padding (padding % 256)

-- The source joins the differences of the padding bytes by `|`: the result is 0 when there is none.
strip : Bytes → ℕ → ℕ → Result Bytes
strip text size padding =
    if padding == 0 || ltb size padding || ltb (length text) padding
    then err invalid_padding
    else if not (all (λ b. b == padding) (drop (length text - padding) text))
    then err invalid_padding
    else ok (take (length text - padding) text)

unfoldable pub pkcs7_unpad : Bytes → ℕ → Result Bytes
unfolding strip
pkcs7_unpad text size =
    if length text == 0 || not (length text % size == 0)
    then err invalid_padding
    else strip text size (get_or text (length text - 1) 0)

-- `base64.StdEncoding.EncodedLen`
abbrev pub encoded_len : ℕ → ℕ
encoded_len n = (n + 2) / 3 * 4

pub record Primitives : Type 0 where
  pub cbc_encrypt : Bytes → Bytes → Bytes → Bytes  -- key, IV, text
  pub cbc_decrypt : Bytes → Bytes → Bytes → Bytes
  pub base64 : Bytes → Bytes
  pub unbase64 : Bytes → Option Bytes

pub record Codec : Type 0 where
  pub key : Bytes
  pub iv : Bytes

module _ (p : Primitives) where
  unfoldable pub encode : Codec → Bytes → Result Bytes
  unfolding pkcs7_pad
  encode c plain =
      if ltb max_plaintext_bytes (length plain)
      then err response_too_large
      else ok (p.base64 (p.cbc_encrypt c.key c.iv (pkcs7_pad plain block_size)))

  bounded : Result Bytes → Result Bytes
  bounded (err e) = err e
  bounded (ok plain) =
      if ltb max_plaintext_bytes (length plain) then err response_too_large else ok plain

  decrypt : Codec → Option Bytes → Result Bytes
  unfolding bounded pkcs7_unpad
  decrypt c none = err malformed_ciphertext
  decrypt c (some ciphertext) =
      if length ciphertext == 0 || not (length ciphertext % block_size == 0)
      then err malformed_ciphertext
      else bounded (pkcs7_unpad (p.cbc_decrypt c.key c.iv ciphertext) block_size)

  unfoldable pub decode : Codec → Bytes → Result Bytes
  unfolding decrypt
  decode c body =
      if length body == 0 || ltb (encoded_len (max_plaintext_bytes + block_size)) (length body)
      then err response_too_large
      else decrypt c (p.unbase64 body)
