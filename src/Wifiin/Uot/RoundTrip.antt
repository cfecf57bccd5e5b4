-- ===== src/Wifiin/Uot/RoundTrip.antt =====
-- What the writer frames, the reader restores.
use kfadapter.Base.{
  ℕ, ◌+◌, ◌/◌, ◌%◌, ◌≤◌, ◌<◌, ◌≡◌, refl, ap, sym, ◌∙◌, Bool, true, false, [], ◌∷◌, ◌++◌, some, take,
  drop, length, length-append, length-take, length-drop, arith, take-append_at, drop-append_at,
  take-append-drop, Option-cases, inl, inr,
}
use kfadapter.Base.Bytes.{Bytes, put_u16, u16_of}
use kfadapter.Wifiin.Uot.{
  ok, frame_of, uot_address_length, write_socks_datagram, read_address, read_body, mask_head,
  read_socks_datagram, max_uot_body_size,
}

-- An IPv4 address takes seven bytes, of which the packet holds at least as many.
address_length-ipv4 :
    (mask : Bool) (r : Bytes) (n : ℕ)
    → uot_address_length mask (1 ∷ r) ≡ some n
    → (n ≡ 7) × (6 ≤ length r)
unfolding uot_address_length
address_length-ipv4 mask [] n h = ground arith
address_length-ipv4 mask (x ∷ r) n h = ground arith

ipv4-address_length :
    (mask : Bool) (r : Bytes) → 6 ≤ length r → uot_address_length mask (1 ∷ r) ≡ some 7
unfolding uot_address_length
ipv4-address_length true [] h = absurd (omega arith)
ipv4-address_length false [] h = absurd (omega arith)
ipv4-address_length true (x ∷ r) h = ground arith
ipv4-address_length false (x ∷ r) h = ground arith

write_checks :
    (flow a b c t : ℕ) (r frame : Bytes) (n : ℕ)
    → write_socks_datagram flow (a ∷ b ∷ c ∷ t ∷ r) ≡ ok frame
    → uot_address_length false (t ∷ r) ≡ some n
    → (a ≡ 0)
      × (b ≡ 0)
      × (c ≡ 0)
      × (t ≡ 1)
      × (length r + 3 ≤ max_uot_body_size)
      × (frame ≡ frame_of flow (t ∷ r) n)
unfolding write_socks_datagram
write_checks flow a b c t r frame n h e = ground arith

-- What an accepted datagram looks like, and what is written for it.
pub write_socks_datagram-ok :
    (flow : ℕ) (d frame : Bytes)
    → write_socks_datagram flow d ≡ ok frame
    → (r : Bytes) × (d ≡ 0 ∷ 0 ∷ 0 ∷ 1 ∷ r)
      × (6 ≤ length r)
      × (length r + 3 ≤ max_uot_body_size)
      × (frame ≡ frame_of flow (1 ∷ r) 7)
unfolding write_socks_datagram
write_socks_datagram-ok flow [] frame h = cc
write_socks_datagram-ok flow (a ∷ []) frame h = cc
write_socks_datagram-ok flow (a ∷ b ∷ []) frame h = cc
write_socks_datagram-ok flow (a ∷ b ∷ c ∷ []) frame h =
    absurd (unfold uot_address_length in ground arith)
write_socks_datagram-ok flow (a ∷ b ∷ c ∷ t ∷ r) frame h =
    elim (Option-cases (uot_address_length false (t ∷ r))) [
      | inl e ↦ absurd (ground arith)
      | inr (n, e) ↦
          let (ea, eb, ec, et, bound, shape) = write_checks flow a b c t r frame n h e in
          let (en, enough) = address_length-ipv4 false r n (rw (← et) e) in
          (r, ground arith, enough, bound, ground arith)
    ]

-- The address that heads a text does not see what follows it.
abbrev pub IsAddress : Bytes → Type 0
IsAddress addr = uot_address_length true addr ≡ some (length addr)

address_length-append :
    (addr rest : Bytes)
    → IsAddress addr
    → uot_address_length true (addr ++ rest) ≡ some (length addr)
unfolding uot_address_length
address_length-append [] rest h = cc
address_length-append (t ∷ []) rest h = absurd (ground arith)
address_length-append (t ∷ n ∷ r) rest h = ground (arith, length-append r rest)

read_address-ok :
    (dst flow : ℕ) (addr payload rest : Bytes)
    → flow < 65536
    → length addr + length payload + 3 ≤ dst
    → read_address dst (addr ++ (put_u16 flow ++ payload)) rest (some (length addr))
      ≡ ok (0 ∷ 0 ∷ 0 ∷ (mask_head addr ++ payload), flow, rest)
unfolding read_address
read_address-ok dst flow addr payload rest small fits =
    rw
      (
        take-append_at (length addr) addr (put_u16 flow ++ payload) refl,
        drop-append_at (length addr) addr (put_u16 flow ++ payload) refl,
      )
      (ground
        (arith, length-append addr (put_u16 flow ++ payload), length-append (put_u16 flow) payload))

read_body-append :
    (dst n : ℕ) (body rest : Bytes)
    → length body ≡ n
    → read_body dst n (body ++ rest) ≡ read_address dst body rest (uot_address_length true body)
unfolding read_body
read_body-append dst n body rest e =
    rw (take-append_at n body rest e, drop-append_at n body rest e)
      (ground (arith, length-append body rest))

-- The frame that a server sends: its length, the address, the flow and the payload.
abbrev pub server_frame : ℕ → Bytes → Bytes → Bytes
server_frame flow addr payload =
    put_u16 (length addr + 2 + length payload) ++ (addr ++ (put_u16 flow ++ payload))

read_frame :
    (dst n : ℕ) (stream : Bytes)
    → 0 < n
    → n < 65536
    → read_socks_datagram dst (put_u16 n ++ stream) ≡ read_body dst n stream
unfolding read_socks_datagram
read_frame dst n stream lo hi =
    let e : u16_of (n / 256 % 256) (n % 256) ≡ n = omega arith in rw e (ground arith)

-- Reading a frame with any well-formed address (IPv4, IPv6 or domain, the upper half of its type byte
-- arbitrary), a 16-bit flow, and a payload that together fit a 16-bit length and the buffer, restores
-- the datagram with the type masked, the flow, and exactly the bytes that follow the frame.
pub read-server_frame :
    (dst flow : ℕ) (addr payload rest : Bytes)
    → IsAddress addr
    → flow < 65536
    → length addr + 2 + length payload < 65536
    → length addr + length payload + 3 ≤ dst
    → read_socks_datagram dst (server_frame flow addr payload ++ rest)
      ≡ ok (0 ∷ 0 ∷ 0 ∷ (mask_head addr ++ payload), flow, rest)
read-server_frame dst flow addr payload rest good small short fits =
    let body : Bytes = addr ++ (put_u16 flow ++ payload) in
    let size : length body ≡ length addr + 2 + length payload =
      omega (arith, length-append addr (put_u16 flow ++ payload)) in
    read_frame dst (length addr + 2 + length payload) (body ++ rest) (omega arith) short
    ∙ read_body-append dst (length addr + 2 + length payload) body rest size
    ∙ rw (address_length-append addr (put_u16 flow ++ payload) good)
        (read_address-ok dst flow addr payload rest small fits)

-- What the writer frames the reader restores, as the first frame of a stream: the same datagram and
-- flow, with the rest of the stream untouched, if the buffer holds the datagram.
pub read-write_socks_datagram :
    (dst flow : ℕ) (d frame rest : Bytes)
    → flow < 65536
    → length d ≤ dst
    → write_socks_datagram flow d ≡ ok frame
    → read_socks_datagram dst (frame ++ rest) ≡ ok (d, flow, rest)
read-write_socks_datagram dst flow d frame rest small fits h =
    let (r, shape, enough, bound, framed) = write_socks_datagram-ok flow d frame h in
    let first = length-take 6 r in
    let last = length-drop 6 r in
    let whole : length (1 ∷ take 6 r) + 2 + length (drop 6 r) ≡ length (1 ∷ r) + 2 =
      omega (arith, first, last) in
    let read =
      read-server_frame dst flow (1 ∷ take 6 r) (drop 6 r) rest
        (ipv4-address_length true (take 6 r) (omega (arith, first))
          ∙ ap some (omega (arith, first)))
        small (omega (arith, first, last)) (omega (arith, first, last, ap length shape)) in
    rw (framed, shape)
      (ap
          (λ n.
            read_socks_datagram dst
              ((put_u16 n ++ (1 ∷ take 6 r ++ (put_u16 flow ++ drop 6 r))) ++ rest))
          (sym whole)
        ∙ read
        ∙ ap (λ t. ok (0 ∷ 0 ∷ 0 ∷ 1 ∷ t, flow, rest)) (take-append-drop 6 r))
