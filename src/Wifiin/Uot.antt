-- ===== src/Wifiin/Uot.antt =====
-- internal/kuaifan/wifiin/udp.go: SOCKS UDP datagrams as frames of a byte stream. A stream is the bytes
-- that `io.ReadFull` will still deliver before the end; how they are fragmented does not show.
pub mod RoundTrip
pub mod Reading
use kfadapter.Base.{
  ℕ, zero, suc, ◌+◌, ◌-◌, ◌%◌, ◌≡◌, refl, Bool, true, false, ◌&&◌, ◌||◌, not, List, [], ◌∷◌, ◌++◌,
  Option, none, some, take, drop, length, ltb, leb, ◌==◌, if◌then◌else◌,
}
use kfadapter.Base.Bytes.{Bytes, put_u16, u16_of}

pub data UotError : Type 0 where
  invalid_udp_datagram fragmented_udp unsupported_udp_address invalid_uot_frame : UotError
  short_buffer read_frame_length read_frame_body : UotError

pub data Result {ℓ} (A : Type ℓ) : Type ℓ where
  ok : A → Result A
  err : UotError → Result A

abbrev pub max_uot_body_size : ℕ
max_uot_body_size = 65535

-- A length that the packet covers, or none.
abbrev covered : ℕ → Bytes → Option ℕ
covered n packet = if ltb (length packet) n then none else some n

-- The `switch` of `uotAddressLength` on the address type; `packet` begins with the type byte.
address_length_at : ℕ → Bytes → Option ℕ
address_length_at kind [] = none
address_length_at kind (t ∷ []) =
    if kind == 1 then covered 7 (t ∷ []) else if kind == 4 then covered 19 (t ∷ []) else none
address_length_at kind (t ∷ n ∷ r) =
    if kind == 1
    then covered 7 (t ∷ n ∷ r)
    else if kind == 4
    then covered 19 (t ∷ n ∷ r)
    else if kind == 3
    then (if n == 0 then none else covered (suc (suc (n + 2))) (t ∷ n ∷ r))
    else none

-- `b & 0x0f`
abbrev pub low_nibble : ℕ → ℕ
low_nibble b = b % 16

-- `uotAddressLength`; its one error is `ErrInvalidUOTFrame`.
unfoldable pub uot_address_length : Bool → Bytes → Option ℕ
unfolding address_length_at
uot_address_length mask_type [] = none
uot_address_length mask_type (t ∷ r) =
    address_length_at (if mask_type then low_nibble t else t) (t ∷ r)

-- The frame of one datagram, its address of length `n` before the flow and its payload after it.
abbrev pub frame_of : ℕ → Bytes → ℕ → Bytes
frame_of flow inner n =
    put_u16 (length inner + 2) ++ (take n inner ++ (put_u16 flow ++ drop n inner))

abbrev kind_of : Bytes → ℕ
kind_of [] = 0
kind_of (t ∷ r) = t

write_inner : ℕ → Bytes → Option ℕ → Result Bytes
write_inner flow inner none = err invalid_udp_datagram
write_inner flow inner (some n) =
    if not (kind_of inner == 1)
    then err unsupported_udp_address
    else if ltb max_uot_body_size (length inner + 2)
    then err invalid_udp_datagram
    else ok (frame_of flow inner n)

-- `WriteSOCKSDatagram`, up to the bytes that it hands to `writeFull`.
unfoldable pub write_socks_datagram : ℕ → Bytes → Result Bytes
unfolding write_inner
write_socks_datagram flow [] = err invalid_udp_datagram
write_socks_datagram flow (a ∷ []) = err invalid_udp_datagram
write_socks_datagram flow (a ∷ b ∷ []) = err invalid_udp_datagram
write_socks_datagram flow (a ∷ b ∷ frag ∷ inner) =
    if not (a == 0) || not (b == 0)
    then err invalid_udp_datagram
    else if not (frag == 0)
    then err fragmented_udp
    else write_inner flow inner (uot_address_length false inner)

-- The two bytes that follow an address are the flow; the rest is the payload.
abbrev flow_payload : Bytes → ℕ × Bytes
flow_payload (hi ∷ lo ∷ payload) = (u16_of hi lo, payload)
flow_payload (b ∷ []) = (0, [])
flow_payload [] = (0, [])

-- `dst[3] &= 0x0f`
abbrev mask_head : Bytes → Bytes
mask_head [] = []
mask_head (t ∷ r) = low_nibble t ∷ r

-- A datagram as restored, its flow, and the bytes of the stream after the frame.
abbrev pub Reading : Type 0
Reading = Result (Bytes × ℕ × Bytes)

read_address : ℕ → Bytes → Bytes → Option ℕ → Reading
read_address dst body rest none = err invalid_uot_frame
read_address dst body rest (some n) =
    let (flow, payload) = flow_payload (drop n body) in
    if ltb (length body) (n + 2)
    then err invalid_uot_frame
    else if ltb dst (3 + length body - 2)
    then err short_buffer
    else ok (0 ∷ 0 ∷ 0 ∷ (mask_head (take n body) ++ payload), flow, rest)

read_body : ℕ → ℕ → Bytes → Reading
unfolding read_address
read_body dst n stream =
    let body = take n stream in
    if ltb (length stream) n
    then err read_frame_body
    else read_address dst body (drop n stream) (uot_address_length true body)

-- `ReadSOCKSDatagram` into a buffer of `dst` bytes: empty frames are keepalives and are skipped.
unfoldable pub read_socks_datagram : ℕ → Bytes → Reading
unfolding read_body
read_socks_datagram dst [] = err read_frame_length
read_socks_datagram dst (hi ∷ []) = err read_frame_length
read_socks_datagram dst (hi ∷ lo ∷ stream) =
    let again = read_socks_datagram dst stream in
    if u16_of hi lo == 0 then again else read_body dst (u16_of hi lo) stream
