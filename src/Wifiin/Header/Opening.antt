-- ===== src/Wifiin/Header/Opening.antt =====
-- What a server that follows the protocol reads out of the initial packet.
use kfadapter.Base.{
  ℕ, ◌+◌, ◌/◌, ◌%◌, ◌≤◌, ◌<◌, ◌≡◌, ◌≢◌, refl, ap, ◌∙◌, true, false, ◌||◌, [], ◌∷◌, ◌++◌, Option,
  none, some, take, drop, length, length-append, ltb, if◌then◌else◌, arith, take-append_at,
  drop-append_at, Option-cases, inl, inr,
}
use mathlib.Core.List.{append_assoc}
use kfadapter.Base.Bytes.{Bytes, put_u16, u16_of, has_byte}
use kfadapter.Base.Text.{split, split-append}
use kfadapter.Wifiin.Provider.{valid_provider_extension, bar}
use kfadapter.Wifiin.Provider.Canonical.{valid_provider_extension-bar, valid_text-no_bar}
use kfadapter.Wifiin.Header.{
  ok, packet_of, iv_size, key_size, header_plaintext, valid_ascii_host, new_outbound_header_with_iv,
}

-- The parts of a packet: the outer type, the IV, the ciphertext and the port.
pub record Opened : Type 0 where
  pub outer : ℕ
  pub iv : Bytes
  pub ciphertext : Bytes
  pub port : ℕ

port_of : Bytes → Option ℕ
port_of (hi ∷ lo ∷ []) = some (u16_of hi lo)
port_of _ = none

open_body : ℕ → ℕ → Bytes → Option Opened
unfolding port_of
open_body outer n body =
    if ltb n iv_size || ltb (length body) n then none else (elim (port_of (drop n body)) [
      | none ↦ none
      | some port ↦ some (record {
        outer = outer;
        iv = take iv_size (take n body);
        ciphertext = drop iv_size (take n body);
        port = port;
      })
    ])

-- Reads a whole packet by its length field.
unfoldable pub open_packet : Bytes → Option Opened
unfolding open_body
open_packet (outer ∷ hi ∷ lo ∷ body) = open_body outer (u16_of hi lo) body
open_packet _ = none

open_body-packet :
    (outer n port : ℕ) (iv c : Bytes)
    → length iv ≡ iv_size
    → n ≡ iv_size + length c
    → port < 65536
    → open_body outer n (iv ++ (c ++ put_u16 port))
      ≡ some (record { outer = outer; iv = iv; ciphertext = c; port = port })
unfolding open_body
open_body-packet outer n port iv c li en small =
    let covered : length (iv ++ c) ≡ n = omega (arith, length-append iv c) in
    rw (← append_assoc iv c (put_u16 port)) (
      ground (
        arith,
        length-append (iv ++ c) (put_u16 port),
        take-append_at n (iv ++ c) (put_u16 port) covered,
        drop-append_at n (iv ++ c) (put_u16 port) covered,
        take-append_at iv_size iv c li,
        drop-append_at iv_size iv c li,
      ))

open_packet-packet_of :
    (outer port : ℕ) (iv c : Bytes)
    → length iv ≡ iv_size
    → length c ≤ 65519
    → port < 65536
    → open_packet (packet_of outer iv c port)
      ≡ some (record { outer = outer; iv = iv; ciphertext = c; port = port })
unfolding open_packet
open_packet-packet_of outer port iv c li short small =
    let n = iv_size + length c in
    let e : u16_of (n / 256 % 256) (n % 256) ≡ n = omega arith in
    ap (λ k. open_body outer k (iv ++ (c ++ put_u16 port))) e
    ∙ open_body-packet outer n port iv c li refl small

length-packet_of :
    (outer port : ℕ) (iv c : Bytes)
    → length iv ≡ iv_size
    → length (packet_of outer iv c port) ≡ 21 + length c
length-packet_of outer port iv c li =
    omega (arith, length-append iv (c ++ put_u16 port), length-append c (put_u16 port))

new_header-err :
    (encrypt : Bytes → Bytes → Bytes → Bytes) (key host : Bytes) (port : ℕ) (extra : Bytes)
    (outer : ℕ) (iv packet : Bytes)
    → header_plaintext host port extra ≡ none
    → new_outbound_header_with_iv encrypt key host port extra outer iv ≢ ok packet
unfolding new_outbound_header_with_iv
new_header-err encrypt key host port extra outer iv packet e h = ground arith

new_header-ok :
    (encrypt : Bytes → Bytes → Bytes → Bytes) (key host : Bytes) (port : ℕ) (extra : Bytes)
    (outer : ℕ) (iv plain packet : Bytes)
    → header_plaintext host port extra ≡ some plain
    → new_outbound_header_with_iv encrypt key host port extra outer iv ≡ ok packet
    → (length iv ≡ iv_size)
      × (length key ≡ key_size)
      × (packet ≡ packet_of outer iv (encrypt key iv plain) port)
unfolding new_outbound_header_with_iv
new_header-ok encrypt key host port extra outer iv plain packet e h = ground arith

host-no_bar : (host : Bytes) → valid_ascii_host host ≡ true → has_byte bar host ≡ false
unfolding valid_ascii_host
host-no_bar host h = valid_text-no_bar _ host h

header_plaintext-some :
    (host : Bytes) (port : ℕ) (extra plain : Bytes)
    → header_plaintext host port extra ≡ some plain
    → (plain ≡ host ++ extra)
      × (port ≢ 0)
      × (valid_ascii_host host ≡ true)
      × (valid_provider_extension extra ≡ true)
      × (length host + length extra ≤ 65519)
unfolding header_plaintext
header_plaintext-some host port extra plain h = ground arith

-- A packet that was built opens into its outer type, the IV, the ciphertext of the target and the
-- extension, and the port; its length field has not wrapped, and the decrypted text splits at `|` into
-- the target host and the fields of the extension, for any cipher whose decryption undoes its
-- encryption and keeps lengths.
pub open-new_outbound_header :
    (encrypt decrypt : Bytes → Bytes → Bytes → Bytes) (key host : Bytes) (port : ℕ) (extra : Bytes)
    (outer : ℕ) (iv packet : Bytes)
    → ((k v p : Bytes) → length (encrypt k v p) ≡ length p)
    → ((k v p : Bytes) → decrypt k v (encrypt k v p) ≡ p)
    → port < 65536
    → new_outbound_header_with_iv encrypt key host port extra outer iv ≡ ok packet
    → (o : Opened) × (open_packet packet ≡ some o)
      × (o.outer ≡ outer)
      × (o.iv ≡ iv)
      × (o.port ≡ port)
      × (length packet ≤ 65540)
      × ((rest : Bytes) × (extra ≡ bar ∷ rest)
          × (split bar (decrypt key o.iv o.ciphertext) ≡ host ∷ split bar rest))
open-new_outbound_header encrypt decrypt key host port extra outer iv packet keeps undoes small h =
    elim (Option-cases (header_plaintext host port extra)) [
      | inl e ↦ absurd (new_header-err encrypt key host port extra outer iv packet e h)
      | inr (plain, e) ↦
          let (shape, _, host_ok, extra_ok, short) =
            header_plaintext-some host port extra plain e in
          let (rest, bars) = valid_provider_extension-bar extra extra_ok in
          let c = encrypt key iv plain in
          let (li, _, built) =
            new_header-ok encrypt key host port extra outer iv plain packet e h in
          let size : length c ≤ 65519 =
            omega (arith, keeps key iv plain, ap length shape, length-append host extra) in
          (
            record { outer = outer; iv = iv; ciphertext = c; port = port },
            rw built (open_packet-packet_of outer port iv c li size small),
            refl,
            refl,
            refl,
            omega (arith, ap length built, length-packet_of outer port iv c li),
            (
              rest,
              bars,
              rw (undoes key iv plain, shape, bars)
                  (split-append bar host rest (host-no_bar host host_ok)),
            ),
          )
    ]
