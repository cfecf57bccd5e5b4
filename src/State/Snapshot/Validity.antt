-- ===== src/State/Snapshot/Validity.antt =====
-- What `validate_runtime_snapshot` accepts, said without its loops.
use mathlib.Core.List.{
  Mem, Nodup, Nodup-cons, Nodup-nil, mem-cons, mem-cons_self, mem-cons_of_mem, not-mem-nil,
}
use mathlib.Core.List.{reverse, reverse-cons, append_assoc, append-nil, mem-reverse}
use mathlib.Core.HLevel.{⊥_prop}
use mathlib.Core.Logic.Or
use kfadapter.Base.{
  ℕ, suc, ◌+◌, ◌≤◌, ◌<◌, ◌≡◌, refl, ◌∙◌, subst, ◌≢◌, ◌↔◌, ◌⊎◌, inl, inr, true, false, List, [], ◌∷◌,
  ◌++◌, none, some, length, map, arith, Option-cases,
}
use kfadapter.Base.Bytes.{Bytes}
use kfadapter.Base.Dict.{member, member→mem, mem→member, not-member→not-mem, not-mem→not-member}
use kfadapter.State.Types.{Node, NodeRef, RuntimeSnapshot, Selectors, effective_client_profile}
use kfadapter.State.Sessions.{sessions_valid, session_for}
use kfadapter.State.Snapshot.{
  max_runtime_nodes, max_runtime_selector_refs, max_session_lifetime, validate_node, check_nodes,
  check_ref, check_refs, check_header, validate_runtime_snapshot,
}

abbrev pub ids : List Node → List Bytes
ids = map λ n. n.id

-- A node is well formed, and its profile has a session unless the clock, at the node's own reading,
-- says that the snapshot has expired.
pub record IsAdmitted (clock : ℕ → ℕ) (k : ℕ) (s : RuntimeSnapshot) (n : Node) : Type 0 where
  pub well_formed : validate_node n ≡ true
  pub authorized :
      clock k < s.expires_at → (session_for s.sessions (effective_client_profile n)).1 ≡ true

abbrev pub AllAdmitted : (ℕ → ℕ) → ℕ → RuntimeSnapshot → List Node → Type 0
AllAdmitted clock k s [] = Unit
AllAdmitted clock k s (n ∷ ns) = IsAdmitted clock k s n × AllAdmitted clock (suc k) s ns

-- A reference is a tombstone with an end and no node, or it names a node of the snapshot.
abbrev pub RefersTo : List Bytes → NodeRef → Type 0
RefersTo known ref =
    (ref.generation ≢ 0)
    × (((ref.tombstoned ≡ true) × (ref.node_id ≡ []) × (ref.tombstone_until ≢ 0))
        ⊎ ((ref.tombstoned ≡ false) × (ref.node_id ≢ []) × Mem ref.node_id known))

abbrev pub AllRefer : List Bytes → Selectors → Type 0
AllRefer known [] = Unit
AllRefer known ((selector, ref) ∷ m) = ((selector ≢ []) × RefersTo known ref) × AllRefer known m

pub record IsWellFormed (clock : ℕ → ℕ) (s : RuntimeSnapshot) : Type 0 where
  pub numbered : s.generation ≢ 0
  pub created : s.created_at ≢ 0
  pub lives : s.created_at < s.expires_at
  pub short_lived : s.expires_at ≤ s.created_at + max_session_lifetime
  pub nodes_bounded : length s.nodes ≤ max_runtime_nodes
  pub selectors_bounded : length s.selectors ≤ max_runtime_selector_refs
  pub signed_in : clock 0 < s.expires_at → sessions_valid s.sessions ≡ true
  pub admitted : AllAdmitted clock 1 s s.nodes
  pub distinct : Nodup (ids s.nodes)
  pub referring : AllRefer (ids s.nodes) s.selectors

check_header→parts :
    (clock : ℕ → ℕ) (s : RuntimeSnapshot)
    → check_header clock s ≡ true
    → (s.generation ≢ 0)
      × (s.created_at ≢ 0)
      × (s.created_at < s.expires_at)
      × (s.expires_at ≤ s.created_at + max_session_lifetime)
      × (length s.nodes ≤ max_runtime_nodes)
      × (length s.selectors ≤ max_runtime_selector_refs)
      × (clock 0 < s.expires_at → sessions_valid s.sessions ≡ true)
unfolding check_header
check_header→parts clock s h = ground arith

parts→check_header :
    (clock : ℕ → ℕ) (s : RuntimeSnapshot) → IsWellFormed clock s → check_header clock s ≡ true
unfolding check_header
parts→check_header clock s h = ground (arith, h.signed_in)

-- One round of the loop that goes on: what it has checked, and what is left.
check_nodes_step :
    (clock : ℕ → ℕ) (k : ℕ) (s : RuntimeSnapshot) (seen : List Bytes) (n : Node) (ns : List Node)
    {out : List Bytes}
    → check_nodes clock k s seen (n ∷ ns) ≡ some out
    → IsAdmitted clock k s n
      × (member n.id seen ≡ false)
      × (check_nodes clock (suc k) s (n.id ∷ seen) ns ≡ some out)
unfolding check_nodes
check_nodes_step clock k s seen n ns h = ground arith

-- The loop keeps `seen`, adds each node's identifier once, and admits each node.
check_nodes→parts :
    (clock : ℕ → ℕ) (k : ℕ) (s : RuntimeSnapshot) (seen : List Bytes) (ns : List Node)
    {out : List Bytes}
    → check_nodes clock k s seen ns ≡ some out
    → AllAdmitted clock k s ns
      × Nodup (ids ns)
      × ((x : Bytes) → Mem x (ids ns) → ¬ Mem x seen)
      × (out ≡ reverse (ids ns) ++ seen)
unfolding check_nodes
check_nodes→parts clock k s seen [] h = (tt, Nodup-nil, λ x m. absurd (not-mem-nil m), cc)
check_nodes→parts clock k s seen (n ∷ ns) h =
    let (fit, fresh, more) = check_nodes_step clock k s seen n ns h in
    let (admitted, distinct, apart, e) = check_nodes→parts clock (suc k) s (n.id ∷ seen) ns more in
    (
      (fit, admitted),
      Nodup-cons.1 (λ m. apart n.id m mem-cons_self, distinct),
      λ x m there.
          Or.elim ⊥_prop (mem-cons.0 m)
            (λ eq. not-member→not-mem n.id seen fresh (subst (λ t. Mem t seen) eq there))
            (λ t. apart x t (mem-cons_of_mem n.id there)),
      e ∙ rw (reverse-cons n.id (ids ns), append_assoc),
    )

parts→check_nodes :
    (clock : ℕ → ℕ) (k : ℕ) (s : RuntimeSnapshot) (seen : List Bytes) (ns : List Node)
    → AllAdmitted clock k s ns
    → Nodup (ids ns)
    → ((x : Bytes) → Mem x (ids ns) → ¬ Mem x seen)
    → check_nodes clock k s seen ns ≡ some (reverse (ids ns) ++ seen)
unfolding check_nodes
parts→check_nodes clock k s seen [] a d apart = refl
parts→check_nodes clock k s seen (n ∷ ns) a d apart = ground (
  arith,
  a.0.authorized,
  not-mem→not-member n.id seen (apart n.id mem-cons_self),
  reverse-cons n.id (ids ns),
  append_assoc (reverse (ids ns)) (n.id ∷ []) seen,
  parts→check_nodes clock (suc k) s (n.id ∷ seen) ns a.1 (Nodup-cons.0 d).1 (λ x m there.
      Or.elim ⊥_prop (mem-cons.0 there)
        (λ eq. (Nodup-cons.0 d).0 (subst (λ t. Mem t (ids ns)) eq m))
        (apart x (mem-cons_of_mem n.id m))),
)

check_refs→AllRefer :
    (known names : List Bytes) (m : Selectors)
    → ((x : Bytes) → Mem x known → Mem x names)
    → check_refs known m ≡ true
    → AllRefer names m
unfolding check_refs check_ref
check_refs→AllRefer known names [] sub h = tt
check_refs→AllRefer known names ((selector, ref) ∷ m) sub h =
    ground
      (arith, member→mem ref.node_id known, sub ref.node_id, check_refs→AllRefer known names m sub)

AllRefer→check_refs :
    (known names : List Bytes) (m : Selectors)
    → ((x : Bytes) → Mem x names → Mem x known)
    → AllRefer names m
    → check_refs known m ≡ true
unfolding check_refs check_ref
AllRefer→check_refs known names [] sub h = refl
AllRefer→check_refs known names ((selector, ref) ∷ m) sub h = ground (
  arith,
  sub ref.node_id,
  mem→member ref.node_id known,
  AllRefer→check_refs known names m sub h.1,
)

mem_loop_ids :
    (s : RuntimeSnapshot) (x : Bytes) → Mem x (reverse (ids s.nodes) ++ []) ↔ Mem x (ids s.nodes)
mem_loop_ids s x = rw append-nil mem-reverse

checks→IsWellFormed :
    (clock : ℕ → ℕ) (s : RuntimeSnapshot) (known : List Bytes)
    → check_header clock s ≡ true
    → check_nodes clock 1 s [] s.nodes ≡ some known
    → check_refs known s.selectors ≡ true
    → IsWellFormed clock s
checks→IsWellFormed clock s known header loop refs =
    let (numbered, created, lives, short, nodes, selectors, signed) =
      check_header→parts clock s header in
    let (admitted, distinct, _, e) = check_nodes→parts clock 1 s [] s.nodes loop in
    record {
      numbered = numbered;
      created = created;
      lives = lives;
      short_lived = short;
      nodes_bounded = nodes;
      selectors_bounded = selectors;
      signed_in = signed;
      admitted = admitted;
      distinct = distinct;
      referring =
          check_refs→AllRefer known (ids s.nodes) s.selectors
            (λ x m. (mem_loop_ids s x).0 (subst (λ t. Mem x t) e m)) refs;
    }

-- `ValidateRuntimeSnapshot` returns no error exactly on the well-formed snapshots: numbered, with a
-- lifetime of at most 24 hours, within the bounds, with usable sessions and a session for each
-- node's profile while the clock is before the expiry, each node valid, the node identifiers
-- distinct, and each selector a complete tombstone or a reference to a node of the snapshot.
pub validate_runtime_snapshot_iff :
    (clock : ℕ → ℕ) (s : RuntimeSnapshot)
    → (validate_runtime_snapshot clock s ≡ none) ↔ IsWellFormed clock s
unfolding validate_runtime_snapshot
validate_runtime_snapshot_iff clock s = (sound, complete)
  where
    sound : validate_runtime_snapshot clock s ≡ none → IsWellFormed clock s
    sound h = elim (Option-cases (check_nodes clock 1 s [] s.nodes)) [
      | inl e ↦ ground arith
      | inr (known, e) ↦ checks→IsWellFormed clock s known (ground arith) e (ground arith)
    ]

    complete : IsWellFormed clock s → validate_runtime_snapshot clock s ≡ none
    complete h = ground (
      arith,
      parts→check_header clock s h,
      parts→check_nodes clock 1 s [] s.nodes h.admitted h.distinct (λ x m. not-mem-nil),
      AllRefer→check_refs (reverse (ids s.nodes) ++ []) (ids s.nodes) s.selectors
          (λ x m. (mem_loop_ids s x).1 m) h.referring,
    )
