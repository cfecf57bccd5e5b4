-- ===== src/Wifiin/Handshake.antt =====
-- internal/kuaifan/wifiin/tcp.go: the reader of the server's acknowledgement. The transport delivers
-- its bytes in chunks, each with the error that may come with it; a chunk longer than the buffer is
-- delivered in parts, the error with the last. After the chunks the transport is at its end.
use kfadapter.Base.{
  ℕ, zero, suc, ◌+◌, ◌-◌, ◌≤◌, ◌<◌, ◌≡◌, ◌⊎◌, inl, inr, refl, Bool, true, false, ◌&&◌, ◌||◌, not,
  List, [], ◌∷◌, ◌++◌, Option, none, some, is_empty, take, drop, length, get_or, ltb, ◌==◌,
  if◌then◌else◌,
}
use kfadapter.Base.Bytes.{Bytes}
pub mod Fragments
pub mod Stream
pub mod Reads
pub mod ServerIv

pub data ReadError : Type 0 where
  eof no_progress truncated_ack invalid_ack unexpected_eof : ReadError
  transport_error : ℕ → ReadError

pub record Chunk : Type 0 where
  pub bytes : Bytes
  pub error : Option ReadError

-- `HandshakeReader`, its field `r` the chunks that are left.
pub record Reader : Type 0 where
  pub upstream : List Chunk
  pub pending : Bytes
  pub read_err : Option ReadError
  pub ack_consumed : Bool

unfoldable pub new_handshake_reader : List Chunk → Reader
new_handshake_reader chunks = record {
  upstream = chunks;
  pending = [];
  read_err = none;
  ack_consumed = false;
}

-- `r.r.Read(buf[:n])`: the bytes and the error, and what is left.
abbrev pub upstream_read : ℕ → List Chunk → Bytes × Option ReadError × List Chunk
upstream_read n [] = ([], some eof, [])
upstream_read n (c ∷ cs) =
    if ltb n (length c.bytes)
    then (take n c.bytes, none, record c { bytes = drop n c.bytes } ∷ cs)
    else (c.bytes, c.error, cs)

abbrev pub fill_size : ℕ
fill_size = 32_768

-- `fill`, after the transport's answer; `some e` is the error returned.
pub fill_with : Bytes × Option ReadError × List Chunk → Reader → Option ReadError × Reader
fill_with ([], none, cs) r = (some no_progress, record r { upstream = cs })
fill_with ([], some e, cs) r = (some e, record r { upstream = cs })
fill_with (b ∷ bs, error, cs) r =
    (none, record r { upstream = cs; pending = r.pending ++ (b ∷ bs); read_err = error })

pub fill_after : Option ReadError → Reader → Option ReadError × Reader
unfolding fill_with
fill_after (some e) r = (some e, record r { read_err = none })
fill_after none r = fill_with (upstream_read fill_size r.upstream) r

pub fill : Reader → Option ReadError × Reader
unfolding fill_after
fill r = fill_after r.read_err r

-- How an error of `fill` is returned from `ReadACK`.
ack_error : ReadError → ReadError
ack_error eof = truncated_ack
ack_error no_progress = no_progress
ack_error truncated_ack = truncated_ack
ack_error invalid_ack = invalid_ack
ack_error unexpected_eof = unexpected_eof
ack_error (transport_error n) = transport_error n

-- The loop that waits for three bytes; `none` is the lack of fuel.
abbrev pub Loop : Type 0
Loop = Option (Option ReadError × Reader)

pub gather_next : Option ReadError × Reader → (Reader → Loop) → Loop
unfolding ack_error
gather_next (some e, r) next = some (some (ack_error e), r)
gather_next (none, r) next = next r

pub gather : ℕ → Reader → Loop
unfolding gather_next fill
gather zero r = if ltb (length r.pending) 3 then none else some (none, r)
gather (suc k) r =
    let more = gather_next (fill r) (gather k) in
    if ltb (length r.pending) 3 then more else some (none, r)

pub accept_ack : Loop → Loop
accept_ack none = none
accept_ack (some (some e, r)) = some (some e, r)
accept_ack (some (none, r)) =
    if get_or r.pending 0 0 == 0 && get_or r.pending 1 0 == 0 && get_or r.pending 2 0 == 0
    then some (none, record r { pending = drop 3 r.pending; ack_consumed = true })
    else some (some invalid_ack, r)

-- Each round adds a byte or ends the loop, so three are enough.
unfoldable pub read_ack : Reader → Loop
unfolding accept_ack gather
read_ack r = if r.ack_consumed then some (none, r) else accept_ack (gather 3 r)

pub read_pending : ℕ → Bytes → Option ReadError → Reader → Bytes × Option ReadError × Reader
read_pending n (b ∷ bs) error r = (take n (b ∷ bs), none, record r { pending = drop n (b ∷ bs) })
read_pending n [] (some e) r = ([], some e, record r { read_err = none })
read_pending n [] none r =
    let answer = upstream_read n r.upstream in
    (answer.0, answer.1, record r { upstream = answer.2 })

-- `Read(p)` with `len(p) = n`: the bytes and the error.
unfoldable pub read : ℕ → Reader → Bytes × Option ReadError × Reader
unfolding read_pending
read n r = if n == 0 then ([], none, r) else read_pending n r.pending r.read_err r

-- `io.ReadFull`: what it returns after the last read, for `n` bytes missing; nothing read at the
-- end of the stream is `io.EOF`, a part `io.ErrUnexpectedEOF`.
pub record Full : Type 0 where
  pub got : Bytes
  pub failure : Option ReadError
  pub after : Reader

pub full_error : Bytes → ReadError → ReadError
full_error [] e = e
full_error (b ∷ bs) eof = unexpected_eof
full_error (b ∷ bs) no_progress = no_progress
full_error (b ∷ bs) truncated_ack = truncated_ack
full_error (b ∷ bs) invalid_ack = invalid_ack
full_error (b ∷ bs) unexpected_eof = unexpected_eof
full_error (b ∷ bs) (transport_error n) = transport_error n

read_full_next :
    ℕ → Bytes → Bytes × Option ReadError × Reader → (Bytes → Reader → Option Full) → Option Full
unfolding full_error
read_full_next n got (bytes, some e, r) next = some (record {
  got = got ++ bytes;
  failure = if ltb (length got + length bytes) n then some (full_error (got ++ bytes) e) else none;
  after = r;
})
read_full_next n got (bytes, none, r) next = next (got ++ bytes) r

pub read_full : ℕ → ℕ → Bytes → Reader → Option Full
unfolding read_full_next read
read_full zero n got r =
    if ltb (length got) n then none else some (record { got = got; failure = none; after = r })
read_full (suc k) n got r =
    let more = read_full_next n got (read (n - length got) r) (read_full k n) in
    if ltb (length got) n then more else some (record { got = got; failure = none; after = r })

pub server_iv : Loop → Option Full
unfolding read_full
server_iv none = none
server_iv (some (some e, r)) = some (record { got = []; failure = some e; after = r })
server_iv (some (none, r)) = read_full (length r.upstream + 3) 16 [] r

-- `ReadServerIV`. A read takes all that is pending, or the pending error, or a chunk, or fills the
-- buffer, so the fuel is enough.
unfoldable pub read_server_iv : Reader → Option Full
unfolding server_iv read_ack
read_server_iv r = server_iv (read_ack r)
