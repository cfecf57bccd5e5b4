-- ===== src/State/Manager/Pins.antt =====
-- What a tunnel pin promises, and when there is none.
use kfadapter.Base.{ℕ, ◌≡◌, refl, true, false, List, none, some, arith, ◌⊎◌, inl, inr, Option-cases}
use kfadapter.Base.Bytes.{Bytes}
use kfadapter.Base.Dict.{lookup}
use kfadapter.State.Types.{
  Node, NodeRef, RuntimeSnapshot, Result, ok, err, selector_unknown, effective_client_profile,
}
use kfadapter.State.Sessions.{sessions_valid-wiped, session_for, same_session_authority_refl}
use kfadapter.State.Snapshot.{resolve_selector, node_by_id, session_usable}
use kfadapter.State.Snapshot.Resolution.{resolve_selector-ok}
use kfadapter.State.Manager.{Manager, serves, sign_out, mark_expired}
use kfadapter.State.Manager.Admission.{TunnelPin, pin_of, compact_pin, session_current_pin}
use kfadapter.State.Manager.Trace.{Call, commit_free, run, HasNoSession}
use kfadapter.State.Manager.Views.{run-HasNoSession}

-- The facts behind a pin: the view that it was taken from and what was found there.
pub record IsPinOf (m : Manager) (selector : Bytes) (generation now : ℕ) (pin : TunnelPin)
    (s : RuntimeSnapshot) : Type 0 where
  pub viewed : m.runtime ≡ some s
  pub serving : serves m.state ≡ true
  pub in_use : session_usable s now ≡ true
  pub stored : lookup selector s.selectors ≡ some pin.ref
  pub live : pin.ref.tombstoned ≡ false
  pub credential : pin.ref.generation ≡ generation
  pub found : node_by_id pin.ref.node_id s.nodes ≡ some pin.node
  pub named : pin.node.id ≡ pin.ref.node_id
  pub authorized : session_for s.sessions (effective_client_profile pin.node) ≡ (pin.session, true)
  pub bounded : pin.expires_at ≡ s.expires_at

compact_pin_view :
    (m : Manager) (selector : Bytes) (generation now : ℕ) (pin : TunnelPin)
    → compact_pin m selector generation now ≡ ok pin
    → (s : RuntimeSnapshot) × (m.runtime ≡ some s)
      × (serves m.state ≡ true)
      × (session_usable s now ≡ true)
      × (pin_of s generation (resolve_selector s selector now) ≡ ok pin)
unfolding compact_pin
compact_pin_view m selector generation now pin h = elim (Option-cases m.runtime) [
  | inl e ↦ ground arith
  | inr (s, e) ↦ (s, e, ground arith, ground arith, ground arith)
]

Result-cases {ℓ} : {A : Type ℓ} (r : Result A) → ((a : A) × (r ≡ ok a)) ⊎ ((e : _) × (r ≡ err e))
Result-cases (ok a) = inl (a, refl)
Result-cases (err e) = inr (e, refl)

pin_of-ok :
    (s : RuntimeSnapshot) (generation : ℕ) (r : Result (Node × NodeRef)) (pin : TunnelPin)
    → pin_of s generation r ≡ ok pin
    → (r ≡ ok (pin.node, pin.ref))
      × (pin.ref.generation ≡ generation)
      × (session_for s.sessions (effective_client_profile pin.node) ≡ (pin.session, true))
      × (pin.expires_at ≡ s.expires_at)
unfolding pin_of
pin_of-ok s generation (err e) pin h = cc
pin_of-ok s generation (ok (node, ref)) pin h = ground arith

-- `CompactPin` returns a pin only while the manager serves, from a view whose sessions are usable now,
-- for a stored reference that is no tombstone and carries the generation that the credentials
-- authenticated under; the node is the view's own node of that reference, and the session is the
-- valid one of the node's profile.
pub compact_pin-ok :
    (m : Manager) (selector : Bytes) (generation now : ℕ) (pin : TunnelPin)
    → compact_pin m selector generation now ≡ ok pin
    → (s : RuntimeSnapshot) × IsPinOf m selector generation now pin s
compact_pin-ok m selector generation now pin h =
    let (s, viewed, serving, in_use, e) = compact_pin_view m selector generation now pin h in
    let (resolved, credential, authorized, bounded) = pin_of-ok s generation _ pin e in
    let (stored, live, named, found) =
      resolve_selector-ok s selector now pin.node pin.ref resolved in
    (
      s,
      record {
        viewed = viewed;
        serving = serving;
        in_use = in_use;
        stored = stored;
        live = live;
        credential = credential;
        found = found;
        named = named;
        authorized = authorized;
        bounded = bounded;
      },
    )

-- A pin that `CompactPin` has just returned passes the final admission check `SessionCurrentPin`.
pub session_current_pin-compact_pin :
    (m : Manager) (selector : Bytes) (generation now : ℕ) (pin : TunnelPin)
    → compact_pin m selector generation now ≡ ok pin
    → session_current_pin m pin now ≡ true
unfolding session_current_pin
session_current_pin-compact_pin m selector generation now pin h =
    let (s, p) = compact_pin-ok m selector generation now pin h in
    rw p.viewed (
      ground (
        arith,
        p.serving,
        p.in_use,
        p.authorized,
        p.bounded,
        same_session_authority_refl pin.session,
      ))

-- No session in the view, no pin.
shut-HasNoSession :
    (m : Manager) (selector : Bytes) (generation now : ℕ) (pin : TunnelPin)
    → HasNoSession m.runtime
    → (compact_pin m selector generation now ≡ err selector_unknown)
      × (session_current_pin m pin now ≡ false)
unfolding compact_pin session_current_pin session_usable
shut-HasNoSession m selector generation now pin s = ground arith

sign_out-HasNoSession : (m : Manager) → HasNoSession (sign_out m).runtime
unfolding sign_out
sign_out-HasNoSession m = ground (arith, sessions_valid-wiped)

-- Once `SignOut` has run, no history of calls without a `Commit` makes the manager hand out a pin or
-- admit an old one, whatever leases, rollbacks, transitions and installations the history holds.
pub sign_out_shuts :
    (hmac : Bytes → Bytes → Bytes) (m : Manager) (cs : List Call) (selector : Bytes)
    (generation now : ℕ) (pin : TunnelPin)
    → commit_free cs ≡ true
    → (compact_pin (run hmac (sign_out m) cs) selector generation now ≡ err selector_unknown)
      × (session_current_pin (run hmac (sign_out m) cs) pin now ≡ false)
sign_out_shuts hmac m cs selector generation now pin h =
    shut-HasNoSession (run hmac (sign_out m) cs) selector generation now pin
      (run-HasNoSession hmac (sign_out m) cs h (sign_out-HasNoSession m))

mark_expired-HasNoSession :
    (m : Manager) (at : ℕ)
    → (mark_expired at m).1 ≡ none
    → HasNoSession (mark_expired at m).0.runtime
unfolding mark_expired
mark_expired-HasNoSession m at h = ground (arith, sessions_valid-wiped)

-- From the moment that `MarkExpired` succeeds, no history of calls without a `Commit` makes the manager
-- hand out a pin or admit an old one.
pub mark_expired_shuts :
    (hmac : Bytes → Bytes → Bytes) (m : Manager) (at : ℕ) (cs : List Call) (selector : Bytes)
    (generation now : ℕ) (pin : TunnelPin)
    → (mark_expired at m).1 ≡ none
    → commit_free cs ≡ true
    → (compact_pin (run hmac (mark_expired at m).0 cs) selector generation now
        ≡ err selector_unknown)
      × (session_current_pin (run hmac (mark_expired at m).0 cs) pin now ≡ false)
mark_expired_shuts hmac m at cs selector generation now pin done h =
    shut-HasNoSession (run hmac (mark_expired at m).0 cs) selector generation now pin
      (run-HasNoSession hmac (mark_expired at m).0 cs h (mark_expired-HasNoSession m at done))
