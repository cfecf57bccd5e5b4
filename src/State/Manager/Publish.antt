-- ===== src/State/Manager/Publish.antt =====
-- `Commit`: what it takes to publish a snapshot, and that a published snapshot is served.
use kfadapter.Base.{
  ℕ, suc, ◌≡◌, ◌≢◌, ◌≤◌, ◌<◌, refl, true, false, List, [], ◌∷◌, none, some, arith, ◌⊎◌, inl, inr,
  any,
}
use kfadapter.Base.Bytes.{Bytes}
use kfadapter.Base.Dict.{lookup}
use kfadapter.State.Types.{
  authenticating, syncing, ready, degraded, Node, NodeRef, RuntimeSnapshot, ok, tunnel_eligible,
  effective_client_profile,
}
use kfadapter.State.Sessions.{sessions_valid, user_id, session_for}
use kfadapter.State.Snapshot.{node_by_id, session_usable}
use kfadapter.State.Snapshot.Validity.{IsWellFormed, AllAdmitted, validate_runtime_snapshot_iff}
use kfadapter.State.Snapshot.Resolution.{resolve_selector-valid, resolve_selector-ok}
use kfadapter.State.Binding.{account_binding_for, matches_account_binding→eq}
use kfadapter.State.Manager.{Manager}
use kfadapter.State.Manager.Admission.{TunnelPin, compact_pin}
use kfadapter.State.Manager.Publication.{stale, commit}

-- The facts that `Commit` has checked of a snapshot that it published.
pub record IsPublishable (hmac : Bytes → Bytes → Bytes) (clock : ℕ → ℕ) (s : RuntimeSnapshot)
    (m : Manager) : Type 0 where
  pub well_formed : IsWellFormed clock s
  pub signed_in : sessions_valid s.sessions ≡ true
  pub eligible : any tunnel_eligible s.nodes ≡ true
  pub newer : stale m.runtime s.generation ≡ false
  pub bound :
      account_binding_for hmac m.account_binding_key (user_id s.sessions)
      ≡ some m.subscription.account_binding
  pub in_session :
      (m.state ≡ authenticating)
      ⊎ ((m.state ≡ syncing) ⊎ ((m.state ≡ ready) ⊎ (m.state ≡ degraded)))

-- `Commit` without an error has published exactly this snapshot, which is well formed, has sessions of
-- the account that the subscription is bound to, an eligible node and a generation above the
-- published one, and the manager is ready, or degraded if it was; nothing else has changed.
pub commit-ok :
    (hmac : Bytes → Bytes → Bytes) (clock : ℕ → ℕ) (s : RuntimeSnapshot) (m : Manager)
    → (commit hmac clock s m).1 ≡ none
    → IsPublishable hmac clock s m
      × ((commit hmac clock s m).0
          ≡ record m { runtime = some s; state = elim m.state [ degraded ↦ degraded | _ ↦ ready ] })
unfolding commit
commit-ok hmac clock s m h = (
  record {
    well_formed = (validate_runtime_snapshot_iff clock s).0 (ground arith);
    signed_in = ground arith;
    eligible = ground arith;
    newer = ground arith;
    bound =
        matches_account_binding→eq hmac m.subscription.account_binding m.account_binding_key
          (user_id s.sessions) (ground arith);
    in_session = ground arith;
  },
  ground arith,
)

-- `Commit` with an error leaves the manager as it was.
pub commit-err :
    (hmac : Bytes → Bytes → Bytes) (clock : ℕ → ℕ) (s : RuntimeSnapshot) (m : Manager)
    → (commit hmac clock s m).1 ≢ none
    → (commit hmac clock s m).0 ≡ m
unfolding commit
commit-err hmac clock s m h = ground arith

authorized_node :
    (now k : ℕ) (s : RuntimeSnapshot) (id : Bytes) (ns : List Node) (n : Node)
    → AllAdmitted (λ _. now) k s ns
    → now < s.expires_at
    → node_by_id id ns ≡ some n
    → (session_for s.sessions (effective_client_profile n)).1 ≡ true
unfolding node_by_id
authorized_node now k s id [] n a alive h = cc
authorized_node now k s id (m ∷ ns) n a alive h =
    ground (arith, a.0.authorized, authorized_node now (suc k) s id ns n a.1 alive)

-- A snapshot that was just committed serves: at the moment of the commit, within its lifetime, every
-- selector of it that is no tombstone yields a pin to the node that it names, for credentials of the
-- reference's generation.
pub commit_serves :
    (hmac : Bytes → Bytes → Bytes) (now : ℕ) (s : RuntimeSnapshot) (m : Manager) (selector : Bytes)
    (ref : NodeRef)
    → (commit hmac (λ _. now) s m).1 ≡ none
    → s.created_at ≤ now
    → now < s.expires_at
    → selector ≢ []
    → lookup selector s.selectors ≡ some ref
    → ref.tombstoned ≡ false
    → ref.generation ≢ 0
    → (pin : TunnelPin) × (compact_pin (commit hmac (λ _. now) s m).0 selector ref.generation now
        ≡ ok pin)
      × (pin.node.id ≡ ref.node_id)
      × (pin.ref ≡ ref)
unfolding compact_pin session_usable
commit_serves hmac now s m selector ref done born alive named stored live numbered =
    let (p, e) = commit-ok hmac (λ _. now) s m done in
    let v = (validate_runtime_snapshot_iff (λ _. now) s).1 p.well_formed in
    elim (resolve_selector-valid (λ _. now) s selector now ref v stored) [
      | inl (_, (n, resolved, id)) ↦
          let (_, _, _, found) = resolve_selector-ok s selector now n ref resolved in
          let authorized =
            authorized_node now 1 s ref.node_id s.nodes n p.well_formed.admitted alive found in
          (
            record {
              session = (session_for s.sessions (effective_client_profile n)).0;
              expires_at = s.expires_at;
              node = n;
              ref = ref;
            },
            rw e (
                ground (
                  arith, p.signed_in, p.in_session, p.well_formed.created, p.well_formed.lives,
                  resolved, authorized,
                )),
            id,
            refl,
          )
      | inr (dead, _) ↦ absurd (ground arith)
    ]
