-- ===== src/Wifiin/Handshake/Reads.antt =====
-- One read of the handshake reader, and the loop of `io.ReadFull` over it: they end.
use mathlib.Core.List.{append_assoc}
use kfadapter.Base.{
  ℕ, zero, suc, ◌+◌, ◌-◌, ◌≤◌, ◌<◌, ◌≡◌, ◌⊎◌, ◌≢◌, inl, inr, refl, sym, ◌∙◌, ap, subst, true, false,
  List, [], ◌∷◌, ◌++◌, Option, none, some, take, drop, length, ltb, ◌==◌, arith, length-append,
  length-take, take-append-drop, Bool-cases,
}
use kfadapter.Base.Bytes.{Bytes}
use kfadapter.Wifiin.Handshake.{
  ReadError, Chunk, Reader, upstream_read, read_pending, read, read_full_next, read_full,
}
use kfadapter.Wifiin.Handshake.Stream.{stream, unread, upstream_read-stream}

read_pending-unread :
    (n : ℕ) (pending : Bytes) (error : Option ReadError) (r : Reader)
    → pending ≡ r.pending
    → (read_pending n pending error r).0 ++ unread (read_pending n pending error r).2 ≡ unread r
unfolding read_pending
read_pending-unread n (b ∷ bs) error r h =
    sym (append_assoc (take n (b ∷ bs)) (drop n (b ∷ bs)) (stream r.upstream))
    ∙ ap (λ (t : Bytes). t ++ stream r.upstream) (take-append-drop n (b ∷ bs) ∙ h)
read_pending-unread n [] (some e) r h = refl
read_pending-unread n [] none r h =
    subst
      (λ (p : Bytes).
        (upstream_read n r.upstream).0 ++ (p ++ stream (upstream_read n r.upstream).2)
        ≡ p ++ stream r.upstream)
      h (upstream_read-stream n r.upstream)

read-read_pending :
    (n : ℕ) (r : Reader) → (n == 0) ≡ false → read n r ≡ read_pending n r.pending r.read_err r
unfolding read
read-read_pending n r h = rw h refl

read_nothing : (n : ℕ) (r : Reader) → (n == 0) ≡ true → read n r ≡ ([], none, r)
unfolding read
read_nothing n r h = rw h refl

-- What a read returns and what is left are what there was.
pub read-unread : (n : ℕ) (r : Reader) → (read n r).0 ++ unread (read n r).2 ≡ unread r
read-unread n r = elim (Bool-cases (n == 0)) [
  | inl e ↦ ap (λ (a : Bytes × Option ReadError × Reader). a.0 ++ unread a.2) (read_nothing n r e)
  | inr e ↦
      ap (λ (a : Bytes × Option ReadError × Reader). a.0 ++ unread a.2) (read-read_pending n r e)
      ∙ read_pending-unread n r.pending r.read_err r refl
]

abbrev pub waiting : Bytes → ℕ
waiting [] = 0
waiting (b ∷ bs) = 1

-- The reads that can be left: one of what is pending, and one for each chunk.
abbrev pub reads_left : Reader → ℕ
reads_left r = waiting r.pending + length r.upstream

upstream_read-progress :
    (n : ℕ) (cs : List Chunk)
    → (upstream_read n cs).1 ≡ none
    → (n ≤ length (upstream_read n cs).0) ⊎ (length (upstream_read n cs).2 < length cs)
upstream_read-progress n [] h = absurd (ground arith)
upstream_read-progress n (c ∷ cs) h = elim (Bool-cases (ltb n (length c.bytes))) [
  | inl long ↦ inl (ground (arith, length-take n c.bytes))
  | inr short ↦ inr (ground arith)
]

waiting-drop : (n : ℕ) (b : Bytes) → length b ≤ n → waiting (drop n b) ≡ 0
waiting-drop zero [] h = refl
waiting-drop zero (x ∷ b) h = absurd (omega (arith, h))
waiting-drop (suc n) [] h = refl
waiting-drop (suc n) (x ∷ b) h = waiting-drop n b (omega (arith, h))

read_pending-progress :
    (n : ℕ) (pending : Bytes) (error : Option ReadError) (r : Reader)
    → pending ≡ r.pending
    → (read_pending n pending error r).1 ≡ none
    → (n ≤ length (read_pending n pending error r).0)
      ⊎ (reads_left (read_pending n pending error r).2 < reads_left r)
unfolding read_pending
read_pending-progress n (b ∷ bs) error r h e = elim (Bool-cases (ltb (length (b ∷ bs)) n)) [
  | inr long ↦ inl (ground (arith, length-take n (b ∷ bs)))
  | inl short ↦
      let left : waiting (drop n (b ∷ bs)) ≡ 0 = waiting-drop n (b ∷ bs) (ground arith) in
      let before : waiting r.pending ≡ 1 = ap waiting (sym h) in inr (omega (arith, left, before))
]
read_pending-progress n [] (some x) r h e = absurd (ground arith)
read_pending-progress n [] none r h e = elim (upstream_read-progress n r.upstream e) [
  | inl filled ↦ inl filled
  | inr shorter ↦ inr (omega (arith, shorter))
]

read-progress :
    (n : ℕ) (r : Reader)
    → 0 < n
    → (read n r).1 ≡ none
    → (n ≤ length (read n r).0) ⊎ (reads_left (read n r).2 < reads_left r)
read-progress n r some_room e =
    let same = read-read_pending n r (ground arith) in
    subst
      (λ (a : Bytes × Option ReadError × Reader).
        (n ≤ length a.0) ⊎ (reads_left a.2 < reads_left r))
      (sym same)
      (read_pending-progress n r.pending r.read_err r refl
        (subst (λ (a : Bytes × Option ReadError × Reader). a.1 ≡ none) same e))

read_full_next-ends :
    (k n : ℕ) (got : Bytes) (answer : Bytes × Option ReadError × Reader)
    → (answer.1 ≡ none → read_full k n (got ++ answer.0) answer.2 ≢ none)
    → read_full_next n got answer (read_full k n) ≢ none
unfolding read_full_next
read_full_next-ends k n got (bytes, some e, r) h = λ x. ground arith
read_full_next-ends k n got (bytes, none, r) h = h refl

-- The loop of `io.ReadFull` ends when the fuel covers the reads that can be left.
pub read_full-ends :
    (k n : ℕ) (got : Bytes) (r : Reader)
    → (n ≤ length got) ⊎ (reads_left r < k)
    → read_full k n got r ≢ none
unfolding read_full
read_full-ends zero n got r (inl full) = λ x. ground arith
read_full-ends zero n got r (inr few) = absurd (omega (arith, few))
read_full-ends (suc k) n got r few = elim (Bool-cases (ltb (length got) n)) [
  | inr full ↦ λ x. ground arith
  | inl short ↦
      let answer = read (n - length got) r in
      let ongoing : answer.1 ≡ none → read_full k n (got ++ answer.0) answer.2 ≢ none = λ e.
        read_full-ends k n (got ++ answer.0) answer.2 (
          next_round k n got r answer.0 answer.2 short few
            (read-progress (n - length got) r (ground arith) e)) in
      let ends = read_full_next-ends k n got answer ongoing in λ x. ground arith
]
  where
    next_round :
        (k n : ℕ) (got : Bytes) (r : Reader) (bytes : Bytes) (after : Reader)
        → ltb (length got) n ≡ true
        → (n ≤ length got) ⊎ (reads_left r < suc k)
        → (n - length got ≤ length bytes) ⊎ (reads_left after < reads_left r)
        → (n ≤ length (got ++ bytes)) ⊎ (reads_left after < k)
    next_round k n got r bytes after short (inl full) p = absurd (ground arith)
    next_round k n got r bytes after short (inr few) (inl filled) =
        inl (ground (arith, length-append got bytes))
    next_round k n got r bytes after short (inr few) (inr fewer) = inr (omega (arith, few, fewer))
