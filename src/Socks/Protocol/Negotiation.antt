-- ===== src/Socks/Protocol/Negotiation.antt =====
-- Method negotiation: what is accepted, consumed and answered.
use kfadapter.Base.{
  ℕ, ◌-◌, ◌≤◌, ◌<◌, ◌≡◌, refl, Bool, true, false, ◌&&◌, not, [], ◌∷◌, ◌++◌, length, length-append,
  length-take, take-append_at, drop-append_at, take-append-drop, ◌==◌, if◌then◌else◌, arith,
}
use kfadapter.Base.Bytes.{Bytes, has_byte}
use kfadapter.Socks.Protocol.{
  SocksError, bad_greeting, Result, ok, err, Conn, M, and_then, ◌>>=◌, ◌>>◌, guard, read_full,
  write_all, byte_at, choose_method, negotiate, method_user_password, version5,
}

abbrev pub conn : Bytes → Bytes → ℕ → Conn
conn input output room = record { input = input; output = output; room = room }

-- A buffer is filled with what the peer sends next.
pub read_full-append :
    (n : ℕ) (e : SocksError) (a rest output : Bytes) (room : ℕ)
    → length a ≡ n
    → read_full n e (conn (a ++ rest) output room) ≡ (ok a, conn rest output room)
unfolding read_full
read_full-append n e a rest output room h =
    ground (arith, length-append a rest, take-append_at n a rest h, drop-append_at n a rest h)

-- And only so.
pub read_full-ok :
    (n : ℕ) (e : SocksError) (c c' : Conn) (a : Bytes)
    → read_full n e c ≡ (ok a, c')
    → (length a ≡ n) × (c.input ≡ a ++ c'.input) × (c'.output ≡ c.output) × (c'.room ≡ c.room)
unfolding read_full
read_full-ok n e c c' a h = ground (arith, length-take n c.input, take-append-drop n c.input)

pub positive : (n : ℕ) → 0 < n → (n == 0) ≡ false
positive n h = ground arith

-- A version 5 greeting with at least one method, as many as it says, is answered by username and
-- password where it offers them, and by the refusal 255 and an error where not, if the two bytes of
-- the answer can be written; the bytes after the greeting are left.
pub negotiate_greeting :
    (methods rest output : Bytes) (room : ℕ)
    → 0 < length methods
    → 2 ≤ room
    → negotiate (conn (5 ∷ length methods ∷ (methods ++ rest)) output room) ≡ (
        if has_byte method_user_password methods
        then (ok tt, conn rest (output ++ (5 ∷ 2 ∷ [])) (room - 2))
        else (err bad_greeting, conn rest (output ++ (5 ∷ 255 ∷ [])) (room - 2)))
unfolding negotiate write_all
negotiate_greeting methods rest output room some_method fits =
    rw
      (
        read_full-append 2 bad_greeting (5 ∷ length methods ∷ []) (methods ++ rest) output room
            refl,
        positive (length methods) some_method,
        read_full-append (length methods) bad_greeting methods rest output room refl,
      )
      (ground arith)

-- A version byte, a count, and as many bytes.
pub counted_input :
    (v : ℕ) (header body input after rest : Bytes)
    → length header ≡ 2
    → (byte_at 0 header == v && not (byte_at 1 header == 0)) ≡ true
    → length body ≡ byte_at 1 header
    → input ≡ header ++ after
    → after ≡ body ++ rest
    → input ≡ v ∷ length body ∷ (body ++ rest)
counted_input v [] body input after rest l t s i a = absurd (omega arith)
counted_input v (x ∷ []) body input after rest l t s i a = absurd (omega arith)
counted_input v (x ∷ y ∷ []) body input after rest l t s i a = ground arith
counted_input v (x ∷ y ∷ z ∷ r) body input after rest l t s i a = absurd (omega arith)

-- How a chain of calls that succeeded began: a buffer was filled, or a guard held.
reading-ok :
    {B : Type 0} (n : ℕ) (e : SocksError) (f : Bytes → M B) (c c' : Conn) (b : B)
    (r : Result Bytes × Conn)
    → read_full n e c ≡ r
    → and_then f r ≡ (ok b, c')
    → (a : Bytes) × (c'' : Conn) × (length a ≡ n)
      × (c.input ≡ a ++ c''.input)
      × (c''.output ≡ c.output)
      × (c''.room ≡ c.room)
      × (f a c'' ≡ (ok b, c'))
reading-ok n e f c c' b (ok a, c'') h k =
    let (size, input, output, room) = read_full-ok n e c c'' a h in
    (a, c'', size, input, output, room, k)
reading-ok n e f c c' b (err x, c'') h k = cc

pub read_full->>=-ok :
    {B : Type 0} (n : ℕ) (e : SocksError) (f : Bytes → M B) (c c' : Conn) (b : B)
    → (read_full n e >>= f) c ≡ (ok b, c')
    → (a : Bytes) × (c'' : Conn) × (length a ≡ n)
      × (c.input ≡ a ++ c''.input)
      × (c''.output ≡ c.output)
      × (c''.room ≡ c.room)
      × (f a c'' ≡ (ok b, c'))
read_full->>=-ok n e f c c' b h = reading-ok n e f c c' b (read_full n e c) refl h

pub guard->>-ok :
    {B : Type 0} (test : Bool) (e : SocksError) (k : M B) (c c' : Conn) (b : B)
    → (guard test e >> k) c ≡ (ok b, c')
    → (test ≡ true) × (k c ≡ (ok b, c'))
guard->>-ok true e k c c' b h = (refl, h)
guard->>-ok false e k c c' b h = cc

choose_method-ok :
    (methods : Bytes) (c c' : Conn)
    → choose_method methods c ≡ (ok tt, c')
    → (has_byte method_user_password methods ≡ true)
      × (c'.input ≡ c.input)
      × (c'.output ≡ c.output ++ (5 ∷ 2 ∷ []))
unfolding choose_method write_all
choose_method-ok methods c c' h = ground arith

-- The negotiation succeeds only on a version 5 greeting whose methods, as many as it says and at least
-- one, hold username and password, and then it has answered that method alone.
pub negotiate-ok :
    (c c' : Conn)
    → negotiate c ≡ (ok tt, c')
    → (methods : Bytes) × (c.input ≡ 5 ∷ length methods ∷ (methods ++ c'.input))
      × (0 < length methods)
      × (has_byte method_user_password methods ≡ true)
      × (c'.output ≡ c.output ++ (5 ∷ 2 ∷ []))
unfolding negotiate
negotiate-ok c c' h =
    let (header, c1, l1, i1, o1, _, h1) = read_full->>=-ok 2 bad_greeting _ c c' tt h in
    let k = read_full (byte_at 1 header) bad_greeting >>= choose_method in
    let (test, h2) =
      guard->>-ok (byte_at 0 header == version5 && not (byte_at 1 header == 0)) bad_greeting k c1 c'
        tt h1 in
    let (methods, c2, l2, i2, o2, _, h3) =
      read_full->>=-ok (byte_at 1 header) bad_greeting choose_method c1 c' tt h2 in
    let (offered, i3, o3) = choose_method-ok methods c2 c' h3 in
    (
      methods,
      counted_input 5 header methods c.input c1.input c'.input l1 test l2 i1 (rw i3 i2),
      ground (arith, test, l2),
      offered,
      rw (← o1, ← o2) o3,
    )
