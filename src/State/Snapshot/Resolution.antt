-- ===== src/State/Snapshot/Resolution.antt =====
-- What a selector resolves to.
use mathlib.Core.List.{Mem, mem-cons, not-mem-nil}
use mathlib.Core.HLevel.{⊥_prop}
use mathlib.Core.Logic.Or
use kfadapter.Base.{
  ℕ, ◌≡◌, ◌⊎◌, inl, inr, true, false, List, [], ◌∷◌, none, some, arith, ltb, if◌then◌else◌,
  Option-cases,
}
use kfadapter.Base.Bytes.{Bytes, bytes_eq→eq, bytes_eq_refl}
use kfadapter.Base.Dict.{lookup}
use kfadapter.State.Types.{
  Node, NodeRef, RuntimeSnapshot, ok, err, selector_unknown, selector_tombstoned, Selectors,
}
use kfadapter.State.Snapshot.{node_by_id, resolve_selector, validate_runtime_snapshot}
use kfadapter.State.Snapshot.Validity.{ids, RefersTo, AllRefer, validate_runtime_snapshot_iff}

pub node_by_id-id : (id : Bytes) (ns : List Node) (n : Node) → node_by_id id ns ≡ some n → n.id ≡ id
unfolding node_by_id
node_by_id-id id [] n h = cc
node_by_id-id id (m ∷ ns) n h = ground (arith, bytes_eq→eq m.id id, node_by_id-id id ns n)

node_by_id-mem : (id : Bytes) (ns : List Node) → node_by_id id ns ≡ none → ¬ Mem id (ids ns)
unfolding node_by_id
node_by_id-mem id [] h m = not-mem-nil m
node_by_id-mem id (n ∷ ns) h m =
    Or.elim ⊥_prop (mem-cons.0 m) (λ e. ground (arith, bytes_eq_refl n.id, e))
      (node_by_id-mem id ns (ground arith))

lookup-RefersTo :
    (known : List Bytes) (m : Selectors) (selector : Bytes) (ref : NodeRef)
    → AllRefer known m
    → lookup selector m ≡ some ref
    → RefersTo known ref
unfolding lookup
lookup-RefersTo known [] selector ref a h = cc
lookup-RefersTo known ((name, r) ∷ m) selector ref a h =
    ground (arith, lookup-RefersTo known m selector ref a.1)

-- What a successful resolution says: the reference is the one stored, live, and the node is the
-- snapshot's own with that identifier.
pub resolve_selector-ok :
    (s : RuntimeSnapshot) (selector : Bytes) (now : ℕ) (n : Node) (ref : NodeRef)
    → resolve_selector s selector now ≡ ok (n, ref)
    → (lookup selector s.selectors ≡ some ref)
      × (ref.tombstoned ≡ false)
      × (n.id ≡ ref.node_id)
      × (node_by_id ref.node_id s.nodes ≡ some n)
unfolding resolve_selector
resolve_selector-ok s selector now n ref h = elim (Option-cases (lookup selector s.selectors)) [
  | inl e ↦ ground arith
  | inr (r, e) ↦ elim (Option-cases (node_by_id r.node_id s.nodes)) [
    | inl e' ↦ ground arith
    | inr (m, e') ↦ ground (arith, node_by_id-id r.node_id s.nodes m e')
  ]
]

-- In a snapshot that validation accepts, every selector that is not a tombstone resolves to the
-- node that it names, a tombstone is reported as such until its end, and as unknown from then on.
pub resolve_selector-valid :
    (clock : ℕ → ℕ) (s : RuntimeSnapshot) (selector : Bytes) (now : ℕ) (ref : NodeRef)
    → validate_runtime_snapshot clock s ≡ none
    → lookup selector s.selectors ≡ some ref
    → ((ref.tombstoned ≡ false)
        × ((n : Node) × (resolve_selector s selector now ≡ ok (n, ref)) × (n.id ≡ ref.node_id)))
      ⊎ ((ref.tombstoned ≡ true)
          × (resolve_selector s selector now
              ≡ err
                  (if ltb now ref.tombstone_until then selector_tombstoned else selector_unknown)))
unfolding resolve_selector
resolve_selector-valid clock s selector now ref v h =
    elim (lookup-RefersTo (ids s.nodes) s.selectors selector ref
      ((validate_runtime_snapshot_iff clock s).0 v).referring h).1 [
        | inl dead ↦ inr (dead.0, ground arith)
        | inr live ↦ elim (Option-cases (node_by_id ref.node_id s.nodes)) [
          | inl e ↦ absurd (node_by_id-mem ref.node_id s.nodes e live.2)
          | inr (m, e) ↦ inl (live.0, (m, ground arith, node_by_id-id ref.node_id s.nodes m e))
        ]
      ]
