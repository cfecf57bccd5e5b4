-- ===== src/Wifiin/Uot/Reading.antt =====
-- What the reader yields on an arbitrary stream.
use kfadapter.Base.{
  ℕ, zero, suc, ◌+◌, ◌-◌, ◌≤◌, ◌≡◌, refl, ap, true, false, [], ◌∷◌, ◌++◌, some, take, drop, length,
  length-append, length-take, length-drop, ◌==◌, arith, Option-cases, inl, inr, Bool-cases,
}
use kfadapter.Base.Bytes.{Bytes, u16_of}
use kfadapter.Wifiin.Uot.{
  ok, low_nibble, uot_address_length, read_address, read_body, read_socks_datagram, mask_head,
  flow_payload,
}

-- Two zero bytes, an empty frame, `k` times.
abbrev pub keepalives : ℕ → Bytes
keepalives zero = []
keepalives (suc k) = 0 ∷ 0 ∷ keepalives k

-- Any number of empty frames before a frame changes nothing.
pub read-keepalives :
    (dst k : ℕ) (stream : Bytes)
    → read_socks_datagram dst (keepalives k ++ stream) ≡ read_socks_datagram dst stream
unfolding read_socks_datagram
read-keepalives dst zero stream = refl
read-keepalives dst (suc k) stream = read-keepalives dst k stream

-- What is known of a successful reading: its parts, their lengths, and where the stream goes on.
pub record IsDatagram (dst : ℕ) (stream out rest : Bytes) : Type 0 where
  pub inner : Bytes
  pub address : ℕ
  pub restored : out ≡ 0 ∷ 0 ∷ 0 ∷ inner
  pub addressed : uot_address_length false inner ≡ some address
  pub fits : length out ≤ dst
  pub shorter : length rest + 2 ≤ length stream

address_bounds :
    (t l : ℕ) (r : Bytes) (n : ℕ)
    → uot_address_length true (t ∷ l ∷ r) ≡ some n
    → (2 ≤ n) × (n ≤ length r + 2)
unfolding uot_address_length
address_bounds t l r n h = ground arith

mask-address_at :
    (t l m : ℕ) (r x : Bytes)
    → uot_address_length true (t ∷ l ∷ r) ≡ some (suc (suc m))
    → m ≤ length r
    → uot_address_length false (low_nibble t ∷ l ∷ (take m r ++ x)) ≡ some (suc (suc m))
unfolding uot_address_length
mask-address_at t l m r x h b = ground (arith, length-append (take m r) x, length-take m r)

-- Masking the type byte makes an address that a server sent one that the writer's check accepts.
mask-address :
    (body x : Bytes) (n : ℕ)
    → uot_address_length true body ≡ some n
    → uot_address_length false (mask_head (take n body) ++ x) ≡ some n
mask-address [] x n h = absurd (unfold uot_address_length in cc)
mask-address (t ∷ []) x n h = absurd (unfold uot_address_length in ground arith)
mask-address (t ∷ l ∷ r) x zero h = absurd (omega (arith, address_bounds t l r zero h))
mask-address (t ∷ l ∷ r) x (suc zero) h = absurd (omega (arith, address_bounds t l r 1 h))
mask-address (t ∷ l ∷ r) x (suc (suc m)) h =
    mask-address_at t l m r x h (omega (arith, address_bounds t l r (suc (suc m)) h))

length-mask_head : (s : Bytes) → length (mask_head s) ≡ length s
length-mask_head [] = refl
length-mask_head (x ∷ s) = refl

length-flow_payload : (s : Bytes) → length (flow_payload s).1 ≡ length s - 2
length-flow_payload [] = omega arith
length-flow_payload (a ∷ []) = omega arith
length-flow_payload (a ∷ b ∷ s) = omega arith

read_address-ok :
    (dst : ℕ) (body rest : Bytes) (n : ℕ) (out : Bytes) (flow : ℕ) (rest' : Bytes)
    → read_address dst body rest (some n) ≡ ok (out, flow, rest')
    → (rest' ≡ rest)
      × (length out ≤ dst)
      × (out ≡ 0 ∷ 0 ∷ 0 ∷ (mask_head (take n body) ++ (flow_payload (drop n body)).1))
unfolding read_address
read_address-ok dst body rest n out flow rest' h =
    let payload = (flow_payload (drop n body)).1 in
    let shape : out ≡ 0 ∷ 0 ∷ 0 ∷ (mask_head (take n body) ++ payload) = ground arith in
    (
      ground arith,
      ground (
        arith,
        ap length shape,
        length-append (mask_head (take n body)) payload,
        length-mask_head (take n body),
        length-flow_payload (drop n body),
        length-take n body,
        length-drop n body,
      ),
      shape,
    )

read_body-IsDatagram :
    (dst n hi lo : ℕ) (stream out : Bytes) (flow : ℕ) (rest : Bytes)
    → read_body dst n stream ≡ ok (out, flow, rest)
    → IsDatagram dst (hi ∷ lo ∷ stream) out rest
unfolding read_body
read_body-IsDatagram dst n hi lo stream out flow rest h =
    elim (Option-cases (uot_address_length true (take n stream))) [
      | inl e ↦ absurd (unfold read_address in ground arith)
      | inr (k, e) ↦
          let got : read_address dst (take n stream) (drop n stream) (some k)
              ≡ ok (out, flow, rest) =
            ground arith in
          let (left, fits, shape) =
            read_address-ok dst (take n stream) (drop n stream) k out flow rest got in
          record {
            inner = mask_head (take k (take n stream)) ++ (flow_payload (drop k (take n stream))).1;
            address = k;
            restored = shape;
            addressed = mask-address (take n stream) _ k e;
            fits = fits;
            shorter = omega (arith, ap length left, length-drop n stream);
          }
    ]

-- Every datagram that the reader yields, from any stream, begins with three zero bytes and an address
-- that passes the unmasked check, fits the buffer, and leaves a stream that is at least two bytes
-- shorter.
pub read_socks_datagram-IsDatagram :
    (dst : ℕ) (stream out : Bytes) (flow : ℕ) (rest : Bytes)
    → read_socks_datagram dst stream ≡ ok (out, flow, rest)
    → IsDatagram dst stream out rest
unfolding read_socks_datagram
read_socks_datagram-IsDatagram dst [] out flow rest h = absurd (ground arith)
read_socks_datagram-IsDatagram dst (hi ∷ []) out flow rest h = absurd (ground arith)
read_socks_datagram-IsDatagram dst (hi ∷ lo ∷ stream) out flow rest h =
    elim (Bool-cases (u16_of hi lo == 0)) [
      | inl e ↦
          let d = read_socks_datagram-IsDatagram dst stream out flow rest (rw e at h) in
          record {
            inner = d.inner;
            address = d.address;
            restored = d.restored;
            addressed = d.addressed;
            fits = d.fits;
            shorter = omega (arith, d.shorter);
          }
      | inr e ↦ read_body-IsDatagram dst (u16_of hi lo) hi lo stream out flow rest (rw e at h)
    ]
