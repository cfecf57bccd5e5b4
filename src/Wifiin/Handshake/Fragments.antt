-- ===== src/Wifiin/Handshake/Fragments.antt =====
-- The acknowledgement is accepted however the transport cuts the stream into chunks.
use kfadapter.Base.{
  ℕ, zero, suc, ◌≤◌, ◌<◌, ◌≡◌, inl, inr, refl, sym, ◌∙◌, ap, subst, true, ◌&&◌, List, [], ◌∷◌, ◌++◌,
  Option, none, some, take, drop, length, get_or, ltb, ◌==◌, arith, length-append, length-drop,
  length-take, Bool-cases, Option-cases,
}
use kfadapter.Base.Bytes.{Bytes}
use kfadapter.Wifiin.Handshake.{
  ReadError, Chunk, Reader, upstream_read, fill_size, fill_with, fill_after, fill, gather_next,
  gather, accept_ack, read_ack, new_handshake_reader,
}
use kfadapter.Wifiin.Handshake.Stream.{
  stream, unread, fill-unread, gather-some, gather-ends, read_ack-ok,
}

-- Chunks with a byte at least each and no error.
abbrev pub IsClean : List Chunk → Type 0
IsClean [] = Unit
IsClean (c ∷ cs) = (0 < length c.bytes) × (c.error ≡ none) × IsClean cs

long_take : (n : ℕ) (bytes : Bytes) → 0 < n → 0 < length bytes → 0 < length (take n bytes)
long_take n bytes h k = ground (arith, length-take n bytes)

upstream_read-IsClean :
    (n : ℕ) (cs : List Chunk)
    → 0 < n
    → IsClean cs
    → 0 < length (stream cs)
    → (0 < length (upstream_read n cs).0)
      × ((upstream_read n cs).1 ≡ none)
      × IsClean (upstream_read n cs).2
upstream_read-IsClean n [] some_room h some_byte = absurd (omega (arith, some_byte))
upstream_read-IsClean n (c ∷ cs) some_room (h, e, t) some_byte =
    elim (Bool-cases (ltb n (length c.bytes))) [
      | inl long ↦
          rw long
            (long_take n c.bytes some_room h, refl, (ground (arith, length-drop n c.bytes), e, t))
      | inr short ↦ rw short (h, e, t)
    ]

abbrev pub IsReady : Reader → Type 0
IsReady r = (r.read_err ≡ none) × IsClean r.upstream

fill_with-IsReady :
    (answer : Bytes × Option ReadError × List Chunk) (r : Reader)
    → 0 < length answer.0
    → answer.1 ≡ none
    → IsClean answer.2
    → ((fill_with answer r).0 ≡ none) × IsReady (fill_with answer r).1
unfolding fill_with
fill_with-IsReady ([], error, cs) r some_byte e clean = absurd (omega (arith, some_byte))
fill_with-IsReady (b ∷ bs, error, cs) r some_byte e clean = (refl, (e, clean))

fill_after-IsReady :
    (error : Option ReadError) (r : Reader)
    → error ≡ none
    → IsClean r.upstream
    → 0 < length (stream r.upstream)
    → ((fill_after error r).0 ≡ none) × IsReady (fill_after error r).1
unfolding fill_after
fill_after-IsReady (some e) r h clean some_byte = absurd (ground arith)
fill_after-IsReady none r h clean some_byte =
    let (some_read, e, t) =
      upstream_read-IsClean fill_size r.upstream (omega arith) clean some_byte in
    fill_with-IsReady (upstream_read fill_size r.upstream) r some_read e t

fill-IsReady :
    (r : Reader)
    → IsReady r
    → 0 < length (stream r.upstream)
    → ((fill r).0 ≡ none) × IsReady (fill r).1
unfolding fill
fill-IsReady r (e, clean) some_byte = fill_after-IsReady r.read_err r e clean some_byte

gather_next-ongoing :
    (k : ℕ) (answer : Option ReadError × Reader) (result : Option ReadError × Reader)
    → answer.0 ≡ none
    → gather_next answer (gather k) ≡ some result
    → gather k answer.1 ≡ some result
unfolding gather_next
gather_next-ongoing k (some e, r) result h g = absurd (ground arith)
gather_next-ongoing k (none, r) result h g = g

gather-IsReady :
    (k : ℕ) (r : Reader) (result : Option ReadError × Reader)
    → IsReady r
    → 3 ≤ length (unread r)
    → gather k r ≡ some result
    → result.0 ≡ none
unfolding gather
gather-IsReady zero r result ready enough h = ground arith
gather-IsReady (suc k) r result ready enough h = elim (Bool-cases (ltb (length r.pending) 3)) [
  | inr e ↦ ground arith
  | inl e ↦
      let some_byte : 0 < length (stream r.upstream) =
        ground (arith, length-append r.pending (stream r.upstream)) in
      let (ongoing, ready') = fill-IsReady r ready some_byte in
      gather-IsReady k (fill r).1 result ready'
        (subst (λ (b : Bytes). 3 ≤ length b) (sym (fill-unread r)) enough)
        (gather_next-ongoing k (fill r) result ongoing (ground arith))
]

zeros_first :
    (pending more rest : Bytes)
    → 3 ≤ length pending
    → pending ++ more ≡ 0 ∷ 0 ∷ 0 ∷ rest
    → (get_or pending 0 0 == 0 && get_or pending 1 0 == 0 && get_or pending 2 0 == 0) ≡ true
zeros_first [] more rest l h = absurd (omega (arith, l))
zeros_first (a ∷ []) more rest l h = absurd (omega (arith, l))
zeros_first (a ∷ b ∷ []) more rest l h = absurd (omega (arith, l))
zeros_first (a ∷ b ∷ c ∷ t) more rest l h = ground arith

-- Where the chunks, none empty and none with an error, together begin with three zero bytes,
-- `ReadACK` succeeds, and leaves in the reader what comes after those bytes.
pub read_ack-new_handshake_reader :
    (chunks : List Chunk) (rest : Bytes)
    → IsClean chunks
    → stream chunks ≡ 0 ∷ 0 ∷ 0 ∷ rest
    → (r : Reader) × (read_ack (new_handshake_reader chunks) ≡ some (none, r)) × (unread r ≡ rest)
unfolding read_ack new_handshake_reader accept_ack
read_ack-new_handshake_reader chunks rest clean h =
    let start : Reader = new_handshake_reader chunks in
    let enough : 3 ≤ length (stream chunks) = ground arith in
    elim (Option-cases (gather 3 start)) [
      | inl e ↦ absurd (gather-ends 3 start (omega arith) e)
      | inr ((some x, q), e) ↦
          absurd (ground (arith, gather-IsReady 3 start (some x, q) (refl, clean) enough e))
      | inr ((none, q), e) ↦
          let (kept, three) = gather-some 3 start (none, q) e in
          let zeros = zeros_first q.pending (stream q.upstream) rest (three refl) (kept ∙ h) in
          let r : Reader = record q { pending = drop 3 q.pending; ack_consumed = true } in
          let accepted : read_ack start ≡ some (none, r) = ground arith in
          let taken : 0 ∷ 0 ∷ 0 ∷ rest ≡ 0 ∷ 0 ∷ 0 ∷ unread r =
            sym h ∙ (read_ack-ok start r accepted).1 in
          (r, accepted, ap (drop 3) (sym taken))
    ]
