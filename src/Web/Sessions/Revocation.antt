-- ===== src/Web/Sessions/Revocation.antt =====
-- A session that was removed never matches again.
use kfadapter.Base.{
  ℕ, ◌+◌, ◌≤◌, ◌≡◌, refl, sym, subst, Bool, true, false, List, [], ◌∷◌, some, ◌==◌, is_empty, arith,
  if_both, Bool-cases, Option-cases, inl, inr,
}
use kfadapter.Base.Bytes.{Bytes}
use kfadapter.Base.Dict.{lookup}
use kfadapter.Web.Sessions.{BrowserSession, Store, remove_session, remove_found, expired}
use kfadapter.Web.Sessions.Channels.{count, occurs}
use kfadapter.Web.Sessions.Calls.{revoke, matches, matches_found}
use kfadapter.Web.Sessions.Sound.{IsSound, Creating, remove_session-IsSound}
use kfadapter.Web.Sessions.Run.{System, Steps, at, Steps-IsSound}
use kfadapter.Web.Sessions.Closing.{IsClosed, Steps-IsClosed}

count-lookup :
    (k : Bytes) (b : BrowserSession) (m : List (Bytes × BrowserSession))
    → lookup k m ≡ some b
    → 1 ≤ count b.done m
unfolding lookup
count-lookup k b [] e = ground arith
count-lookup k b ((j, w) ∷ m) e = ground (arith, count-lookup k b m)

-- No session of a sound store has a closed channel.
matches-closed_channel :
    (clock : ℕ → ℕ) (token : Bytes) (x : BrowserSession) (s : Store) (c : Creating)
    → IsSound s c []
    → IsClosed x.done s
    → (matches clock token x s).0 ≡ false
unfolding matches matches_found
matches-closed_channel clock token x s c i h =
    let P = λ (r : Bool × List Bytes × Store). r.0 ≡ false in
    if_both P (is_empty token) refl (elim (Option-cases (lookup token s.sessions)) [
      | inl e ↦ rw e refl
      | inr (b, e) ↦
          let one : count x.done s.sessions + count x.done c + 0 + occurs x.done s.closed ≤ 1 =
            ground (arith, i.one_place x.done) in
          let there : 1 ≤ count b.done s.sessions = count-lookup token b s.sessions e in
          let apart : (b.done == x.done) ≡ false = elim (Bool-cases (b.done == x.done)) [
            | inr n ↦ n
            | inl same ↦
                let own : b.done ≡ x.done = ground arith in
                absurd (omega (arith, one, h, subst (λ d. 1 ≤ count d s.sessions) own there))
          ] in
          rw e (if_both P (expired (clock 0) b) refl apart)
    ])

remove_session-closes :
    (token : Bytes) (b : BrowserSession) (s : Store)
    → lookup token s.sessions ≡ some b
    → IsClosed b.done (remove_session token s)
unfolding remove_session remove_found
remove_session-closes token b s e = rw e (ground arith)

-- A session that was revoked never matches again: whatever calls run after, in any interleaving, its
-- stream finds no session with its channel, even where the token is in use again. The store is
-- sound.
pub revoke-matches :
    (token : Bytes) (b : BrowserSession) (x : System) (y : System) (clock : ℕ → ℕ) (t : Bytes)
    → IsSound x.store x.creating []
    → is_empty token ≡ false
    → lookup token x.store.sessions ≡ some b
    → Steps (at (revoke token true x.store).1 x.creating) y
    → (matches clock t b y.store).0 ≡ false
unfolding revoke
revoke-matches token b x y clock t i nonempty e st =
    let r = (revoke token true x.store).1 in
    let removed : r ≡ remove_session token x.store = rw nonempty refl in
    let sound : IsSound r x.creating [] =
      subst (λ z. IsSound z x.creating []) (sym removed)
        (remove_session-IsSound token x.store x.creating [] i) in
    let closed : IsClosed b.done r =
      subst (IsClosed b.done) (sym removed) (remove_session-closes token b x.store e) in
    matches-closed_channel clock t b y.store y.creating (Steps-IsSound st sound)
      (Steps-IsClosed b.done st closed)
