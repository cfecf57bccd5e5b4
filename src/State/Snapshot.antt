-- ===== src/State/Snapshot.antt =====
-- internal/state/types.go: looking nodes and selectors up in a snapshot, and validating one.
-- `time.Now` is the argument `clock`: its k-th reading within the call is `clock k`.
use kfadapter.Base.{
  ℕ, zero, suc, ◌+◌, ◌-◌, ◌*◌, ◌≤◌, ◌<◌, ◌≡◌, refl, Bool, true, false, ◌&&◌, ◌||◌, not, List, [],
  ◌∷◌, Option, none, some, is_empty, length, leb, ltb, ◌==◌, if◌then◌else◌, arith,
}
use kfadapter.Base.Bytes.{Bytes, bytes_eq, has_byte}
use kfadapter.Base.Dict.{lookup, member}
use kfadapter.State.Types.{
  Node, NodeRef, RuntimeSnapshot, Selectors, StateError, invalid_snapshot, selector_unknown,
  selector_tombstoned, effective_client_profile, is_tombstoned, ClientSessions, Result, ok, err,
}
use kfadapter.State.Sessions.{sessions_valid, session_for}
pub mod Resolution
pub mod Validity

abbrev pub max_runtime_nodes : ℕ
max_runtime_nodes = 4096

abbrev pub max_runtime_selector_refs : ℕ
max_runtime_selector_refs = 4096 + 8192

-- 24 hours, in nanoseconds.
abbrev pub max_session_lifetime : ℕ
max_session_lifetime = 86_400_000_000_000

unfoldable pub node_by_id : Bytes → List Node → Option Node
node_by_id id [] = none
node_by_id id (n ∷ ns) = if bytes_eq n.id id then some n else node_by_id id ns

-- `ResolveSelector`. Where the source returns an error it also returns zero values, except that a
-- tombstone's error comes with its reference; no caller reads them.
resolve_ref : RuntimeSnapshot → ℕ → Option NodeRef → Result (Node × NodeRef)
unfolding is_tombstoned
resolve_ref s now none = err selector_unknown
resolve_ref s now (some ref) =
    if is_tombstoned ref now
    then err selector_tombstoned
    else if ref.tombstoned
    then err selector_unknown
    else (elim (node_by_id ref.node_id s.nodes) [
      | none ↦ err selector_unknown
      | some n ↦ ok (n, ref)
    ])

unfoldable pub resolve_selector : RuntimeSnapshot → Bytes → ℕ → Result (Node × NodeRef)
unfolding resolve_ref
resolve_selector s selector now = resolve_ref s now (lookup selector s.selectors)

-- `ValidateNode`
unfoldable pub validate_node : Node → Bool
validate_node n = not (
    is_empty n.id
    || is_empty n.provider
    || is_empty n.host
    || n.port == 0
    || has_byte 0 n.provider
    || has_byte 0 n.host)

-- The loop over the nodes. `k` counts the clock's readings, `ids` the identifiers met so far;
-- `none` is a return with an error.
check_nodes : (ℕ → ℕ) → ℕ → RuntimeSnapshot → List Bytes → List Node → Option (List Bytes)
check_nodes clock k s ids [] = some ids
check_nodes clock k s ids (n ∷ ns) =
    let rest = check_nodes clock (suc k) s (n.id ∷ ids) ns in
    if not (validate_node n)
    then none
    else if ltb (clock k) s.expires_at
        && not (session_for s.sessions (effective_client_profile n)).1
    then none
    else if member n.id ids
    then none
    else rest

check_ref : List Bytes → Bytes × NodeRef → Bool
check_ref ids (selector, ref) =
    not (is_empty selector)
    && not (ref.generation == 0)
    && (if ref.tombstoned
        then is_empty ref.node_id && not (ref.tombstone_until == 0)
        else not (is_empty ref.node_id) && member ref.node_id ids)

check_refs : List Bytes → Selectors → Bool
unfolding check_ref
check_refs ids [] = true
check_refs ids (entry ∷ m) = check_ref ids entry && check_refs ids m

check_header : (ℕ → ℕ) → RuntimeSnapshot → Bool
check_header clock s =
    not (s.generation == 0 || s.created_at == 0 || s.expires_at == 0)
    && ltb s.created_at s.expires_at
    && leb (s.expires_at - s.created_at) max_session_lifetime
    && leb (length s.nodes) max_runtime_nodes
    && leb (length s.selectors) max_runtime_selector_refs
    && not (ltb (clock 0) s.expires_at && not (sessions_valid s.sessions))

-- `ValidateRuntimeSnapshot` on a pointer that is not nil; each error wraps `ErrInvalidSnapshot`.
unfoldable pub validate_runtime_snapshot : (ℕ → ℕ) → RuntimeSnapshot → Option StateError
unfolding check_header check_nodes check_refs
validate_runtime_snapshot clock s =
    if check_header clock s
    then (elim (check_nodes clock 1 s [] s.nodes) [
      | none ↦ some invalid_snapshot
      | some ids ↦ if check_refs ids s.selectors then none else some invalid_snapshot
    ])
    else some invalid_snapshot

-- `SessionUsable` on a pointer that is not nil.
unfoldable pub session_usable : RuntimeSnapshot → ℕ → Bool
session_usable s now =
    sessions_valid s.sessions
    && not (s.created_at == 0)
    && not (s.expires_at == 0)
    && not (ltb now s.created_at)
    && ltb now s.expires_at
