-- ===== src/Wifiin/Header.antt =====
-- internal/kuaifan/wifiin/tcp.go and cipher.go: the initial packet. AES-CFB and MD5 are arguments.
pub mod Key
pub mod Opening
use kfadapter.Base.{
  ℕ, zero, suc, ◌+◌, ◌-◌, ◌≤◌, ◌<◌, ◌≡◌, Bool, true, false, ◌&&◌, ◌||◌, not, List, [], ◌∷◌, ◌++◌,
  Option, none, some, take, length, ltb, leb, ◌==◌, if◌then◌else◌,
}
use kfadapter.Base.Bytes.{Bytes, put_u16}
use kfadapter.Wifiin.Provider.{valid_text, valid_provider_extension}

pub data HeaderError : Type 0 where
  invalid_target invalid_key invalid_iv : HeaderError

pub data Result {ℓ} (A : Type ℓ) : Type ℓ where
  ok : A → Result A
  err : HeaderError → Result A

abbrev pub key_size : ℕ
key_size = 32

abbrev pub iv_size : ℕ
iv_size = 16

-- OuterType and UOTOuterType
abbrev pub outer_type : ℕ
outer_type = 0x03

abbrev pub uot_outer_type : ℕ
uot_outer_type = 0x23

abbrev pub max_target_host_bytes : ℕ
max_target_host_bytes = 255

-- The loop of `DeriveKey`: each round hashes the last digest and the password, until the key is full.
derive_loop : (Bytes → Bytes) → Bytes → ℕ → Bytes → Bytes → Bytes
derive_loop md5 password zero previous key = key
derive_loop md5 password (suc fuel) previous key =
    let digest = md5 (previous ++ password) in
    let more = derive_loop md5 password fuel digest (key ++ take (key_size - length key) digest) in
    if ltb (length key) key_size then more else key

-- Each digest adds a byte at least, so 33 rounds are enough for 32 bytes.
unfoldable pub derive_key : (Bytes → Bytes) → Bytes → Bytes
unfolding derive_loop
derive_key md5 password = derive_loop md5 password 33 [] []

unfoldable pub valid_ascii_host : Bytes → Bool
valid_ascii_host = valid_text max_target_host_bytes

unfoldable pub header_plaintext : Bytes → ℕ → Bytes → Option Bytes
header_plaintext host port extra =
    if port == 0 || not (valid_ascii_host host) || not (valid_provider_extension extra)
    then none
    else if ltb (0xffff - iv_size) (length host + length extra)
    then none
    else some (host ++ extra)

-- The packet of one ciphertext. The length covers the IV and the ciphertext, not the port.
abbrev pub packet_of : ℕ → Bytes → Bytes → ℕ → Bytes
packet_of outer iv ciphertext port =
    outer ∷ (put_u16 (iv_size + length ciphertext) ++ (iv ++ (ciphertext ++ put_u16 port)))

-- `encrypt key iv text` is what `XORKeyStream` of a fresh CFB encrypter writes.
module _ (encrypt : Bytes → Bytes → Bytes → Bytes) where
  -- `NewEncrypter`
  new_encrypter : Bytes → Bytes → Result (Bytes → Bytes)
  new_encrypter key iv =
      if not (length key == key_size)
      then err invalid_key
      else if not (length iv == iv_size)
      then err invalid_iv
      else ok (encrypt key iv)

  seal : ℕ → Bytes → ℕ → Bytes → Result (Bytes → Bytes) → Result Bytes
  seal outer iv port plain (err e) = err e
  seal outer iv port plain (ok stream) = ok (packet_of outer iv (stream plain) port)

  -- `newOutboundHeaderWithIV`, up to the packet; `newOutboundHeader` reads the IV at random first.
  unfoldable pub new_outbound_header_with_iv : Bytes → Bytes → ℕ → Bytes → ℕ → Bytes → Result Bytes
  unfolding new_encrypter seal
  new_outbound_header_with_iv key host port extra outer iv =
      elim (header_plaintext host port extra) [
        | none ↦ err invalid_target
        | some plain ↦ seal outer iv port plain (new_encrypter key iv)
      ]
