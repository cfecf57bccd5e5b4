-- ===== src/Socks/Protocol.antt =====
-- internal/socks/protocol.go: the messages of SOCKS5 and RFC 1929. A connection is the bytes that the
-- peer has still to deliver, the bytes written, and how many more a write can pass on; `io.ReadFull`
-- takes all that is left where it falls short. The textual forms of IP addresses are arguments.
pub mod Negotiation
pub mod Passwords
pub mod Requests
pub mod Replies
use kfadapter.Base.{
  ℕ, zero, suc, ◌+◌, ◌-◌, ◌≤◌, ◌<◌, ◌≡◌, refl, Bool, true, false, ◌&&◌, ◌||◌, not, List, [], ◌∷◌,
  ◌++◌, Option, none, some, is_empty, take, drop, length, ltb, ◌==◌, if◌then◌else◌, all, ap,
}
use kfadapter.Base.Bytes.{Bytes, put_u16, u16_of, has_byte}

pub data SocksError : Type 0 where
  bad_greeting bad_auth bad_request bad_address address_type_unsupported write_failed : SocksError

pub data Result {ℓ} (A : Type ℓ) : Type ℓ where
  ok : A → Result A
  err : SocksError → Result A

pub record Conn : Type 0 where
  pub input : Bytes
  pub output : Bytes
  pub room : ℕ

-- What a call returns, and the connection after it.
abbrev pub M : Type 0 → Type 0
M A = Conn → Result A × Conn

abbrev pub and_then : {A B : Type 0} → (A → M B) → Result A × Conn → Result B × Conn
and_then f (ok a, c) = f a c
and_then f (err e, c) = (err e, c)

infixl 5 ◌>>=◌ ◌>>◌
abbrev pub ◌>>=◌ : {A B : Type 0} → M A → (A → M B) → M B
◌>>=◌ m f c = and_then f (m c)

abbrev pub ◌>>◌ : {B : Type 0} → M (Unit {0}) → M B → M B
m >> k = m >>= λ _. k

abbrev pub return : {A : Type 0} → A → M A
return a c = (ok a, c)

abbrev pub fail : {A : Type 0} → SocksError → M A
fail e c = (err e, c)

abbrev pub guard : Bool → SocksError → M (Unit {0})
guard true e c = (ok tt, c)
guard false e c = (err e, c)

-- `io.ReadFull(r, buf[:n])`, its error wrapped in `e`.
unfoldable pub read_full : ℕ → SocksError → M Bytes
read_full n e c =
    if ltb (length c.input) n
    then (err e, record c { input = [] })
    else (ok (take n c.input), record c { input = drop n c.input })

-- `writeAll`: the peer takes all, or as much as there is room for before the write fails.
unfoldable pub write_all : Bytes → M (Unit {0})
write_all bytes c =
    if ltb c.room (length bytes)
    then (err write_failed, record c { output = c.output ++ take c.room bytes; room = 0 })
    else (ok tt, record c { output = c.output ++ bytes; room = c.room - length bytes })

abbrev pub version5 : ℕ
version5 = 0x05

abbrev pub version1929 : ℕ
version1929 = 0x01

abbrev pub method_user_password : ℕ
method_user_password = 0x02

abbrev pub method_no_acceptable : ℕ
method_no_acceptable = 0xff

abbrev pub address_ipv4 : ℕ
address_ipv4 = 0x01

abbrev pub address_domain : ℕ
address_domain = 0x03

abbrev pub address_ipv6 : ℕ
address_ipv6 = 0x04

-- The byte at a position of a buffer that `read_full` has filled.
abbrev pub byte_at : ℕ → Bytes → ℕ
byte_at i [] = 0
byte_at zero (x ∷ xs) = x
byte_at (suc i) (x ∷ xs) = byte_at i xs

choose_method : Bytes → M (Unit {0})
choose_method methods =
    if has_byte method_user_password methods
    then write_all (version5 ∷ method_user_password ∷ [])
    else (write_all (version5 ∷ method_no_acceptable ∷ []) >> fail bad_greeting)

unfoldable pub negotiate : M (Unit {0})
unfolding choose_method
negotiate = do
  header ← read_full 2 bad_greeting
  guard (byte_at 0 header == version5 && not (byte_at 1 header == 0)) bad_greeting
  methods ← read_full (byte_at 1 header) bad_greeting
  choose_method methods

unfoldable pub read_user_password : M (Bytes × Bytes)
read_user_password = do
  header ← read_full 2 bad_auth
  guard (byte_at 0 header == version1929 && not (byte_at 1 header == 0)) bad_auth
  username ← read_full (byte_at 1 header) bad_auth
  password_length ← read_full 1 bad_auth
  guard (not (byte_at 0 password_length == 0)) bad_auth
  password ← read_full (byte_at 0 password_length) bad_auth
  return (username, password)

unfoldable pub write_auth_status : Bool → M (Unit {0})
write_auth_status success = write_all (version1929 ∷ (if success then 0 else 1) ∷ [])

pub record Target : Type 0 where
  pub host : Bytes
  pub port : ℕ

-- `netip`: how an address of four or sixteen bytes is written, and what a text denotes.
pub record Netip : Type 0 where
  pub show_ipv4 : Bytes → Bytes
  pub show_ipv6 : Bytes → Bytes
  pub parse_addr : Bytes → Option Bytes

abbrev pub is_host_byte : ℕ → Bool
is_host_byte b = not (ltb b 0x21 || ltb 0x7e b)

pub read_domain : M Bytes
read_domain = do
  n ← read_full 1 bad_address
  guard (not (byte_at 0 n == 0)) bad_address
  name ← read_full (byte_at 0 n) bad_address
  guard (all is_host_byte name) bad_address
  return name

module _ (ip : Netip) where
  pub read_host : ℕ → M Bytes
  unfolding read_domain
  read_host atyp =
      if atyp == address_ipv4
      then (do raw ← read_full 4 bad_address; return (ip.show_ipv4 raw))
      else if atyp == address_ipv6
      then (do raw ← read_full 16 bad_address; return (ip.show_ipv6 raw))
      else if atyp == address_domain
      then read_domain
      else fail address_type_unsupported

  unfoldable pub read_target_address : ℕ → M Target
  unfolding read_host
  read_target_address atyp = do
    host ← read_host atyp
    port ← read_full 2 bad_address
    return (record { host = host; port = u16_of (byte_at 0 port) (byte_at 1 port) })

  unfoldable pub read_request : M (ℕ × Target)
  unfolding read_target_address
  read_request = do
    header ← read_full 4 bad_request
    guard (byte_at 0 header == version5 && byte_at 2 header == 0) bad_request
    destination ← read_target_address (byte_at 3 header)
    return (byte_at 1 header, destination)

  -- The address of a reply: by its length the text's address is IPv4 or IPv6.
  pub reply_address : Option Bytes → Target → Option Bytes
  reply_address none bound =
      if ltb 255 (length bound.host)
      then none
      else some (address_domain ∷ length bound.host ∷ (bound.host ++ put_u16 bound.port))
  reply_address (some raw) bound =
      if length raw == 4
      then some (address_ipv4 ∷ (raw ++ put_u16 bound.port))
      else some (address_ipv6 ∷ (raw ++ put_u16 bound.port))

  pub reply_to : ℕ → Option Bytes → M (Unit {0})
  reply_to code none = fail bad_address
  reply_to code (some address) = write_all (version5 ∷ code ∷ 0 ∷ address)

  unfoldable pub write_reply : ℕ → Target → M (Unit {0})
  unfolding reply_to reply_address
  write_reply code bound =
      if is_empty bound.host
      then write_all (version5 ∷ code ∷ 0 ∷ address_ipv4 ∷ 0 ∷ 0 ∷ 0 ∷ 0 ∷ 0 ∷ 0 ∷ [])
      else reply_to code (reply_address (ip.parse_addr bound.host) bound)
