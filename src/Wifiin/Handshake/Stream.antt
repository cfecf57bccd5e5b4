-- ===== src/Wifiin/Handshake/Stream.antt =====
-- No byte of the stream is lost or added, and the loops end.
use mathlib.Core.List.{append_assoc}
use kfadapter.Base.{
  ℕ, zero, suc, ◌+◌, ◌≤◌, ◌<◌, ◌≡◌, ◌⊎◌, ◌≢◌, inl, inr, refl, sym, ◌∙◌, ap, true, ◌&&◌, List, [],
  ◌∷◌, ◌++◌, Option, none, some, take, drop, length, get_or, ltb, ◌==◌, if◌then◌else◌, arith,
  length-append, take-append-drop, Bool-cases, Option-cases,
}
use kfadapter.Base.Bytes.{Bytes}
use kfadapter.Wifiin.Handshake.{
  ReadError, Chunk, Reader, Loop, upstream_read, fill_size, fill_with, fill_after, fill,
  gather_next, gather, accept_ack, read_ack,
}

-- The bytes that the transport has still to deliver, and those not yet taken from the reader.
abbrev pub stream : List Chunk → Bytes
stream [] = []
stream (c ∷ cs) = c.bytes ++ stream cs

abbrev pub unread : Reader → Bytes
unread r = r.pending ++ stream r.upstream

pub upstream_read-stream :
    (n : ℕ) (cs : List Chunk) → (upstream_read n cs).0 ++ stream (upstream_read n cs).2 ≡ stream cs
upstream_read-stream n [] = refl
upstream_read-stream n (c ∷ cs) = elim (Bool-cases (ltb n (length c.bytes))) [
  | inl e ↦ rw e (
      sym (append_assoc (take n c.bytes) (drop n c.bytes) (stream cs))
      ∙ ap (λ (b : Bytes). b ++ stream cs) (take-append-drop n c.bytes))
  | inr e ↦ rw e refl
]

fill_with-unread :
    (answer : Bytes × Option ReadError × List Chunk) (r : Reader)
    → answer.0 ++ stream answer.2 ≡ stream r.upstream
    → unread (fill_with answer r).1 ≡ unread r
unfolding fill_with
fill_with-unread ([], none, cs) r h = ap (λ (b : Bytes). r.pending ++ b) h
fill_with-unread ([], some e, cs) r h = ap (λ (b : Bytes). r.pending ++ b) h
fill_with-unread (b ∷ bs, error, cs) r h =
    append_assoc r.pending (b ∷ bs) (stream cs) ∙ ap (λ (t : Bytes). r.pending ++ t) h

fill_after-unread :
    (error : Option ReadError) (r : Reader) → unread (fill_after error r).1 ≡ unread r
unfolding fill_after
fill_after-unread none r =
    fill_with-unread (upstream_read fill_size r.upstream) r
      (upstream_read-stream fill_size r.upstream)
fill_after-unread (some e) r = refl

pub fill-unread : (r : Reader) → unread (fill r).1 ≡ unread r
unfolding fill
fill-unread r = fill_after-unread r.read_err r

fill_with-grows :
    (answer : Bytes × Option ReadError × List Chunk) (r : Reader)
    → (fill_with answer r).0 ≡ none
    → (length r.pending < length (fill_with answer r).1.pending)
      × ((fill_with answer r).1.ack_consumed ≡ r.ack_consumed)
unfolding fill_with
fill_with-grows ([], none, cs) r h = absurd (ground arith)
fill_with-grows ([], some e, cs) r h = absurd (ground arith)
fill_with-grows (b ∷ bs, error, cs) r h = (omega (arith, length-append r.pending (b ∷ bs)), refl)

fill_after-grows :
    (error : Option ReadError) (r : Reader)
    → (fill_after error r).0 ≡ none
    → (length r.pending < length (fill_after error r).1.pending)
      × ((fill_after error r).1.ack_consumed ≡ r.ack_consumed)
unfolding fill_after
fill_after-grows none r h = fill_with-grows (upstream_read fill_size r.upstream) r h
fill_after-grows (some e) r h = absurd (ground arith)

-- A round that goes on has added a byte at least.
pub fill-grows :
    (r : Reader)
    → (fill r).0 ≡ none
    → (length r.pending < length (fill r).1.pending) × ((fill r).1.ack_consumed ≡ r.ack_consumed)
unfolding fill
fill-grows r h = fill_after-grows r.read_err r h

gather_next-ends :
    (k : ℕ) (answer : Option ReadError × Reader)
    → (answer.0 ≡ none → gather k answer.1 ≢ none)
    → gather_next answer (gather k) ≢ none
unfolding gather_next
gather_next-ends k (some e, r) h = λ x. ground arith
gather_next-ends k (none, r) h = h refl

-- The loop ends when the fuel covers the bytes missing.
pub gather-ends : (k : ℕ) (r : Reader) → 3 ≤ length r.pending + k → gather k r ≢ none
unfolding gather
gather-ends zero r h = λ x. ground arith
gather-ends (suc k) r h = λ x. ground (
  arith,
  gather_next-ends k (fill r)
      (λ e. gather-ends k (fill r).1 (omega (arith, h, (fill-grows r e).0))),
)

gather_next-some :
    (k : ℕ) (answer result : Option ReadError × Reader)
    → gather_next answer (gather k) ≡ some result
    → ((result.1 ≡ answer.1) × (result.0 ≢ none))
      ⊎ ((answer.0 ≡ none) × (gather k answer.1 ≡ some result))
unfolding gather_next
gather_next-some k (some e, r) result h = inl (ground arith)
gather_next-some k (none, r) result h = inr (refl, h)

-- The loop loses no byte, and without an error three are pending at its end.
pub gather-some :
    (k : ℕ) (r : Reader) (result : Option ReadError × Reader)
    → gather k r ≡ some result
    → (unread result.1 ≡ unread r) × (result.0 ≡ none → (3 ≤ length result.1.pending))
unfolding gather
gather-some zero r result h = ground arith
gather-some (suc k) r result h = elim (Bool-cases (ltb (length r.pending) 3)) [
  | inr e ↦ ground arith
  | inl e ↦ elim (gather_next-some k (fill r) result (ground arith)) [
    | inl (same, failed) ↦ (
      ap (λ (q : Reader). unread q) same ∙ fill-unread r,
      λ none_failed. absurd (failed none_failed),
    )
    | inr (ongoing, rest) ↦
        let (kept, three) = gather-some k (fill r).1 result rest in (kept ∙ fill-unread r, three)
  ]
]

three_zeros :
    (pending rest : Bytes)
    → 3 ≤ length pending
    → (get_or pending 0 0 == 0 && get_or pending 1 0 == 0 && get_or pending 2 0 == 0) ≡ true
    → pending ++ rest ≡ 0 ∷ 0 ∷ 0 ∷ (drop 3 pending ++ rest)
three_zeros [] rest l h = absurd (omega (arith, l))
three_zeros (a ∷ []) rest l h = absurd (omega (arith, l))
three_zeros (a ∷ b ∷ []) rest l h = absurd (omega (arith, l))
three_zeros (a ∷ b ∷ c ∷ t) rest l h = ground arith

accept_ack-ok :
    (loop : Loop) (r' : Reader)
    → accept_ack loop ≡ some (none, r')
    → (r : Reader) × (loop ≡ some (none, r))
      × (r'.ack_consumed ≡ true)
      × (r'.pending ≡ drop 3 r.pending)
      × (r'.upstream ≡ r.upstream)
      × ((get_or r.pending 0 0 == 0 && get_or r.pending 1 0 == 0 && get_or r.pending 2 0 == 0)
          ≡ true)
unfolding accept_ack
accept_ack-ok none r' h = absurd (ground arith)
accept_ack-ok (some (some e, r)) r' h = absurd (ground arith)
accept_ack-ok (some (none, r)) r' h =
    (r, refl, ground arith, ground arith, ground arith, ground arith)

-- `ReadACK` always returns, however the transport behaves: three rounds of its loop are enough.
pub read_ack-ends : (r : Reader) → read_ack r ≢ none
unfolding read_ack accept_ack
read_ack-ends r = λ h. elim (Option-cases (gather 3 r)) [
  | inl e ↦ gather-ends 3 r (omega arith) e
  | inr ((some x, q), e) ↦ ground arith
  | inr ((none, q), e) ↦ ground arith
]

-- A first `ReadACK` that succeeds took three zero bytes off the stream and no more, however they
-- arrived; a later one takes nothing.
pub read_ack-ok :
    (r r' : Reader)
    → read_ack r ≡ some (none, r')
    → (r'.ack_consumed ≡ true)
      × (if r.ack_consumed then unread r ≡ unread r' else (unread r ≡ 0 ∷ 0 ∷ 0 ∷ unread r'))
unfolding read_ack
read_ack-ok r r' h = elim (Bool-cases r.ack_consumed) [
  | inl e ↦ (ground arith, rw e (ground arith))
  | inr e ↦
      let taken : accept_ack (gather 3 r) ≡ some (none, r') = ground arith in
      let (q, gathered, consumed, rest, same, zeros) = accept_ack-ok (gather 3 r) r' taken in
      let (kept, three) = gather-some 3 r (none, q) gathered in
      let start : unread q ≡ 0 ∷ 0 ∷ 0 ∷ (drop 3 q.pending ++ stream q.upstream) =
        three_zeros q.pending (stream q.upstream) (three refl) zeros in
      (consumed, rw e (rw (rest, same) (sym kept ∙ start)))
]
