-- ===== src/Wifiin/Handshake/ServerIv.antt =====
-- The server IV: what the reads after the acknowledgement take off the stream.
use mathlib.Core.List.{append_assoc}
use kfadapter.Base.{
  ℕ, zero, suc, ◌+◌, ◌-◌, ◌≤◌, ◌<◌, ◌≡◌, ◌⊎◌, inl, inr, refl, sym, ◌∙◌, ap, subst, List, [], ◌∷◌,
  ◌++◌, Option, none, some, length, ltb, if◌then◌else◌, arith, length-append, length-take,
  Bool-cases, Option-cases,
}
use kfadapter.Base.Bytes.{Bytes}
use kfadapter.Wifiin.Handshake.{
  ReadError, Chunk, Reader, Loop, Full, upstream_read, read_ack, read_pending, read, read_full_next,
  read_full, server_iv, read_server_iv,
}
use kfadapter.Wifiin.Handshake.Stream.{unread, read_ack-ends, read_ack-ok}
use kfadapter.Wifiin.Handshake.Reads.{read-unread, waiting, reads_left, read_full-ends}

upstream_read-length : (n : ℕ) (cs : List Chunk) → length (upstream_read n cs).0 ≤ n
upstream_read-length n [] = omega arith
upstream_read-length n (c ∷ cs) = ground (arith, length-take n c.bytes)

read_pending-length :
    (n : ℕ) (pending : Bytes) (error : Option ReadError) (r : Reader)
    → length (read_pending n pending error r).0 ≤ n
unfolding read_pending
read_pending-length n (b ∷ bs) error r = ground (arith, length-take n (b ∷ bs))
read_pending-length n [] (some e) r = omega arith
read_pending-length n [] none r = upstream_read-length n r.upstream

read-length : (n : ℕ) (r : Reader) → length (read n r).0 ≤ n
unfolding read
read-length n r = ground (arith, read_pending-length n r.pending r.read_err r)

read_full_next-some :
    (k n : ℕ) (got : Bytes) (answer : Bytes × Option ReadError × Reader) (result : Full)
    → read_full_next n got answer (read_full k n) ≡ some result
    → ((result.got ≡ got ++ answer.0)
        × (result.after ≡ answer.2)
        × (result.failure ≡ none → n ≤ length result.got))
      ⊎ (read_full k n (got ++ answer.0) answer.2 ≡ some result)
unfolding read_full_next
read_full_next-some k n got (bytes, some e, r) result h =
    inl (ground (arith, length-append got bytes))
read_full_next-some k n got (bytes, none, r) result h = inr h

-- What has been read and what is left are what there was; without a failure the buffer is full.
read_full-some :
    (k n : ℕ) (got : Bytes) (r : Reader) (result : Full)
    → read_full k n got r ≡ some result
    → (result.got ++ unread result.after ≡ got ++ unread r)
      × (result.failure ≡ none → n ≤ length result.got)
      × (length got ≤ n → length result.got ≤ n)
unfolding read_full
read_full-some zero n got r result h = ground arith
read_full-some (suc k) n got r result h = elim (Bool-cases (ltb (length got) n)) [
  | inr full ↦ ground arith
  | inl short ↦
      let answer = read (n - length got) r in
      let kept : got ++ answer.0 ++ unread answer.2 ≡ got ++ unread r =
        append_assoc got answer.0 (unread answer.2)
        ∙ ap (λ (t : Bytes). got ++ t) (read-unread (n - length got) r) in
      elim (read_full_next-some k n got answer result (ground arith)) [
        | inl (taken, after, filled) ↦ (
          ap (λ (t : Bytes). t ++ unread result.after) taken
              ∙ ap (λ (q : Reader). got ++ answer.0 ++ unread q) after
              ∙ kept,
          filled,
          λ within.
              ground (arith, taken, length-append got answer.0, read-length (n - length got) r),
        )
        | inr rest ↦
            let (same, filled, within) =
              read_full-some k n (got ++ answer.0) answer.2 result rest in
            (
              same ∙ kept,
              filled,
              λ small.
                  within
                    (ground (arith, length-append got answer.0, read-length (n - length got) r)),
            )
      ]
]

abbrev HasIv : Reader → Full → Type 0
HasIv r full =
    full.failure ≡ none
    → (length full.got ≡ 16)
      × (if r.ack_consumed
          then unread r ≡ full.got ++ unread full.after
          else (unread r ≡ 0 ∷ 0 ∷ 0 ∷ (full.got ++ unread full.after)))

server_iv-lem :
    (r : Reader) (loop : Loop)
    → read_ack r ≡ loop
    → (full : Full) × (server_iv loop ≡ some full) × HasIv r full
unfolding server_iv
server_iv-lem r none h = absurd (read_ack-ends r h)
server_iv-lem r (some (some e, q)) h =
    (record { got = []; failure = some e; after = q }, refl, λ none_failed. absurd (ground arith))
server_iv-lem r (some (none, q)) h =
    let enough : reads_left q < length q.upstream + 3 = few_waiting q.pending (length q.upstream) in
    elim (Option-cases (read_full (length q.upstream + 3) 16 [] q)) [
      | inl e ↦ absurd (read_full-ends (length q.upstream + 3) 16 [] q (inr enough) e)
      | inr (full, e) ↦
          let (same, filled, within) = read_full-some (length q.upstream + 3) 16 [] q full e in
          let acknowledged = (read_ack-ok r q h).1 in
          (
            full,
            e,
            λ done. (
              omega (arith, filled done, within (omega arith)),
              subst
                  (λ (t : Bytes).
                    if r.ack_consumed then unread r ≡ t else (unread r ≡ 0 ∷ 0 ∷ 0 ∷ t))
                  (sym same) acknowledged,
            ),
          )
    ]
  where
    few_waiting : (pending : Bytes) (n : ℕ) → waiting pending + n < n + 3
    few_waiting [] n = omega arith
    few_waiting (b ∷ bs) n = omega arith

-- `ReadServerIV` always returns. Where it reports no error it has read sixteen bytes, which follow the
-- three zero bytes of an acknowledgement not yet taken, and lost none of the stream behind them.
pub read_server_iv-lem :
    (r : Reader)
    → (full : Full) × (read_server_iv r ≡ some full)
      × (full.failure ≡ none
          → (length full.got ≡ 16)
            × (if r.ack_consumed
                then unread r ≡ full.got ++ unread full.after
                else (unread r ≡ 0 ∷ 0 ∷ 0 ∷ (full.got ++ unread full.after))))
unfolding read_server_iv
read_server_iv-lem r = server_iv-lem r (read_ack r) refl
