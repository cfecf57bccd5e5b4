-- ===== src/Socks/Protocol/Requests.antt =====
-- The request of a client: what its address forms are read as.
use kfadapter.Base.{ℕ, ◌<◌, ◌≡◌, refl, true, [], ◌∷◌, ◌++◌, length, all, arith}
use kfadapter.Base.Bytes.{Bytes, put_u16, u16_of}
use kfadapter.Socks.Protocol.{
  bad_request, bad_address, ok, byte_at, is_host_byte, Netip, read_domain, read_host,
  read_target_address, read_request,
}
use kfadapter.Socks.Protocol.Negotiation.{conn, read_full-append, positive}

-- The three forms of RFC 1928, each with its bytes.
pub data Address : Type 0 where
  ipv4 ipv6 domain : Bytes → Address

abbrev pub IsAddress : Address → Type 0
IsAddress (ipv4 raw) = length raw ≡ 4
IsAddress (ipv6 raw) = length raw ≡ 16
IsAddress (domain name) = (0 < length name) × (all is_host_byte name ≡ true)

-- The type byte and the bytes after it.
abbrev pub wire : Address → Bytes
wire (ipv4 raw) = 1 ∷ raw
wire (ipv6 raw) = 4 ∷ raw
wire (domain name) = 3 ∷ length name ∷ name

abbrev pub address_type : Address → ℕ
address_type (ipv4 raw) = 1
address_type (ipv6 raw) = 4
address_type (domain name) = 3

abbrev pub body : Address → Bytes
body (ipv4 raw) = raw
body (ipv6 raw) = raw
body (domain name) = length name ∷ name

abbrev pub text : Netip → Address → Bytes
text ip (ipv4 raw) = ip.show_ipv4 raw
text ip (ipv6 raw) = ip.show_ipv6 raw
text ip (domain name) = name

read_domain_sent :
    (name rest output : Bytes) (room : ℕ)
    → 0 < length name
    → all is_host_byte name ≡ true
    → read_domain (conn (length name ∷ (name ++ rest)) output room)
      ≡ (ok name, conn rest output room)
unfolding read_domain
read_domain_sent name rest output room some_byte printable =
    rw
      (
        read_full-append 1 bad_address (length name ∷ []) (name ++ rest) output room refl,
        positive (length name) some_byte,
        read_full-append (length name) bad_address name rest output room refl,
        printable,
      )
      refl

read_host_sent :
    (ip : Netip) (a : Address) (rest output : Bytes) (room : ℕ)
    → IsAddress a
    → read_host ip (address_type a) (conn (body a ++ rest) output room)
      ≡ (ok (text ip a), conn rest output room)
unfolding read_host
read_host_sent ip (ipv4 raw) rest output room h =
    rw (read_full-append 4 bad_address raw rest output room h) refl
read_host_sent ip (ipv6 raw) rest output room h =
    rw (read_full-append 16 bad_address raw rest output room h) refl
read_host_sent ip (domain name) rest output room h = read_domain_sent name rest output room h.0 h.1

-- A port in two bytes reads as itself.
pub u16_of-put_u16 :
    (n : ℕ) → n < 65536 → u16_of (byte_at 0 (put_u16 n)) (byte_at 1 (put_u16 n)) ≡ n
u16_of-put_u16 n h = omega arith

-- The bytes of a request whose address has any of the three forms.
abbrev pub request_bytes : ℕ → Address → ℕ → Bytes → Bytes
request_bytes command a port rest =
    5 ∷ command ∷ 0 ∷ address_type a ∷ (body a ++ (put_u16 port ++ rest))

-- A request with an address of any of the three forms and a 16-bit port is read as the command, the
-- address's text and the port that were sent; the bytes after it are left.
pub read_request_sent :
    (ip : Netip) (command port : ℕ) (a : Address) (rest output : Bytes) (room : ℕ)
    → IsAddress a
    → port < 65536
    → read_request ip (conn (request_bytes command a port rest) output room)
      ≡ (ok (command, record { host = text ip a; port = port }), conn rest output room)
unfolding read_request read_target_address
read_request_sent ip command port a rest output room h small =
    rw
      (
        read_full-append 4 bad_request (5 ∷ command ∷ 0 ∷ address_type a ∷ [])
            (body a ++ (put_u16 port ++ rest)) output room refl,
        read_host_sent ip a (put_u16 port ++ rest) output room h,
        read_full-append 2 bad_address (put_u16 port) rest output room refl,
        u16_of-put_u16 port small,
      )
      refl
