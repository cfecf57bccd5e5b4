-- ===== src/Socks/Protocol/Passwords.antt =====
-- RFC 1929: the credentials that are read.
use kfadapter.Base.{
  ℕ, ◌<◌, ◌≡◌, refl, sym, ap, subst, ◌∙◌, Bool, true, ◌&&◌, not, [], ◌∷◌, ◌++◌, length, ◌==◌, arith,
}
use kfadapter.Base.Bytes.{Bytes}
use kfadapter.Socks.Protocol.{
  bad_auth, ok, Conn, M, ◌>>=◌, ◌>>◌, guard, return, read_full, byte_at, read_user_password,
  version1929,
}
use kfadapter.Socks.Protocol.Negotiation.{
  conn, read_full-append, positive, counted_input, read_full->>=-ok, guard->>-ok,
}

-- Credentials of one to 255 bytes each are read back as they were sent, and nothing after them.
pub read_user_password_sent :
    (username password rest output : Bytes) (room : ℕ)
    → 0 < length username
    → 0 < length password
    → read_user_password (
        conn
          (1 ∷ length username ∷ (username ++ (length password ∷ (password ++ rest))))
          output
          room)
      ≡ (ok (username, password), conn rest output room)
unfolding read_user_password
read_user_password_sent username password rest output room hu hp = rw (
  read_full-append 2 bad_auth (1 ∷ length username ∷ [])
      (username ++ (length password ∷ (password ++ rest))) output room refl,
  positive (length username) hu,
  read_full-append (length username) bad_auth username (length password ∷ (password ++ rest)) output
      room refl,
  read_full-append 1 bad_auth (length password ∷ []) (password ++ rest) output room refl,
  positive (length password) hp,
  read_full-append (length password) bad_auth password rest output room refl,
)

-- A count, and as many bytes.
pub counted_tail :
    (n body input after rest : Bytes)
    → length n ≡ 1
    → not (byte_at 0 n == 0) ≡ true
    → length body ≡ byte_at 0 n
    → input ≡ n ++ after
    → after ≡ body ++ rest
    → (input ≡ length body ∷ (body ++ rest)) × (0 < length body)
counted_tail [] body input after rest l t s i a = absurd (omega arith)
counted_tail (x ∷ []) body input after rest l t s i a = (ground arith, ground arith)
counted_tail (x ∷ y ∷ r) body input after rest l t s i a = absurd (omega arith)

counted_positive :
    (b : Bool) (n name : Bytes)
    → length name ≡ byte_at 1 n
    → (b && not (byte_at 1 n == 0)) ≡ true
    → 0 < length name
counted_positive b n name l t = ground arith

returned :
    (username name p password : Bytes) (c c' : Conn)
    → return {A = Bytes × Bytes} (username, p) c ≡ (ok (name, password), c')
    → (name ≡ username) × (password ≡ p) × (c' ≡ c)
returned username name p password c c' h = ground arith

-- What is left of the reading after the user name.
abbrev password_part : Bytes → M (Bytes × Bytes)
password_part username = do
  password_length ← read_full 1 bad_auth
  guard (not (byte_at 0 password_length == 0)) bad_auth
  password ← read_full (byte_at 0 password_length) bad_auth
  return (username, password)

password_part-ok :
    (c c' : Conn) (username name password : Bytes)
    → password_part username c ≡ (ok (name, password), c')
    → (name ≡ username)
      × (c.input ≡ length password ∷ (password ++ c'.input))
      × (0 < length password)
      × (c'.output ≡ c.output)
password_part-ok c c' username name password h =
    let finish = λ (p : Bytes). return {A = Bytes × Bytes} (username, p) in
    let tail = λ (n : Bytes). read_full (byte_at 0 n) bad_auth >>= finish in
    let (n, c1, l1, i1, o1, _, h1) =
      read_full->>=-ok 1 bad_auth (λ (n : Bytes). guard (not (byte_at 0 n == 0)) bad_auth >> tail n)
        c c' (name, password) h in
    let (test, h2) =
      guard->>-ok (not (byte_at 0 n == 0)) bad_auth (tail n) c1 c' (name, password) h1 in
    let (p, c2, l2, i2, o2, _, h3) =
      read_full->>=-ok (byte_at 0 n) bad_auth finish c1 c' (name, password) h2 in
    let (en, ep, ec) = returned username name p password c2 c' h3 in
    let (shape, some_byte) = counted_tail n p c.input c1.input c2.input l1 test l2 i1 i2 in
    (
      en,
      subst (λ (d : Conn). c.input ≡ length password ∷ (password ++ d.input)) (sym ec)
          (subst (λ (q : Bytes). c.input ≡ length q ∷ (q ++ c2.input)) (sym ep) shape),
      subst (λ (q : Bytes). 0 < length q) (sym ep) some_byte,
      ap (λ (d : Conn). d.output) ec ∙ o2 ∙ o1,
    )

-- Whatever credentials are read stood at the head of the input in the form of RFC 1929, none of them
-- empty, and nothing was written.
pub read_user_password-ok :
    (c c' : Conn) (username password : Bytes)
    → read_user_password c ≡ (ok (username, password), c')
    → (c.input ≡ 1 ∷ length username ∷ (username ++ (length password ∷ (password ++ c'.input))))
      × (0 < length username)
      × (0 < length password)
      × (c'.output ≡ c.output)
unfolding read_user_password
read_user_password-ok c c' username password h =
    let body = λ (n : Bytes). read_full (byte_at 1 n) bad_auth >>= password_part in
    let (n, c1, l1, i1, o1, _, h1) =
      read_full->>=-ok 2 bad_auth
        (λ (n : Bytes).
          guard (byte_at 0 n == version1929 && not (byte_at 1 n == 0)) bad_auth >> body n)
        c c' (username, password) h in
    let (test, h2) =
      guard->>-ok (byte_at 0 n == version1929 && not (byte_at 1 n == 0)) bad_auth (body n) c1 c'
        (username, password) h1 in
    let (name, c2, l2, i2, o2, _, h3) =
      read_full->>=-ok (byte_at 1 n) bad_auth password_part c1 c' (username, password) h2 in
    let (en, shape, some_byte, o3) = password_part-ok c2 c' name username password h3 in
    let input = counted_input 1 n name c.input c1.input c2.input l1 test l2 i1 i2 in
    (
      subst
          (λ (t : Bytes).
            c.input ≡ 1 ∷ length t ∷ (t ++ (length password ∷ (password ++ c'.input))))
          (sym en) (subst (λ (d : Bytes). c.input ≡ 1 ∷ length name ∷ (name ++ d)) shape input),
      subst (λ (t : Bytes). 0 < length t) (sym en)
          (counted_positive (byte_at 0 n == version1929) n name l2 test),
      some_byte,
      o3 ∙ o2 ∙ o1,
    )
