-- ===== src/App/Coordinator/Installation.antt =====
-- What an installation publishes, and that its rollback restores the coordinator.
use kfadapter.Base.{ℕ, ◌≡◌, refl, subst, inl, inr, false, arith}
use kfadapter.Base.Bytes.{Bytes}
use kfadapter.State.Types.{RuntimeSnapshot}
use kfadapter.State.Binding.{SubscriptionGeneration}
use kfadapter.State.Snapshot.Validity.{ids, AllRefer}
use kfadapter.Selector.Identity.{Primitives, ok, Result-cases}
use kfadapter.Selector.Registry.{Generation, make_generation}
use kfadapter.Selector.Build.{BuildResult, build_with_tombstones}
use kfadapter.App.Coordinator.{
  Coordinator, Installed, set_selectors, of_generation, install_result, install_with,
  install_generation, undo_installation,
}

-- A server that the coordinator was given accepts what the registry in force accepts.
abbrev pub IsInForce : Coordinator → Type 0
IsInForce c = c.server ≡ set_selectors c.registry c.server

-- What a successful installation consists of.
install_generation-parts :
    (p : Primitives) (g : SubscriptionGeneration) (snapshot : RuntimeSnapshot) (now : ℕ)
    (c : Coordinator) (i : Installed)
    → install_generation p g snapshot now c ≡ ok i
    → (r : Generation) × (result : BuildResult) × (make_generation g.generation g.selector_key
          g.proxy_auth_key
        ≡ ok r)
      × (build_with_tombstones p r g.generation snapshot.nodes
            (of_generation g.generation snapshot.selectors)
            now
          ≡ ok result)
      × (install_result c r snapshot (ok result) ≡ ok i)
unfolding install_generation install_with install_result
install_generation-parts p g snapshot now c i h =
    elim (Result-cases (make_generation g.generation g.selector_key g.proxy_auth_key)) [
      | inr (x, e) ↦ absurd (ground arith)
      | inl (r, e) ↦
          elim (Result-cases (
            build_with_tombstones p r g.generation snapshot.nodes
              (of_generation g.generation snapshot.selectors) now)) [
                | inr (x, e') ↦ absurd (ground arith)
                | inl (result, e') ↦ (r, result, e, e', ground arith)
              ]
    ]

-- The view that is installed differs in nodes and selectors alone.
pub install_generation-next :
    (p : Primitives) (g : SubscriptionGeneration) (snapshot : RuntimeSnapshot) (now : ℕ)
    (c : Coordinator) (i : Installed)
    → install_generation p g snapshot now c ≡ ok i
    → i.next ≡ record snapshot { nodes = i.next.nodes; selectors = i.next.selectors }
unfolding install_result
install_generation-next p g snapshot now c i h =
    let (r, result, made, built, shape) = install_generation-parts p g snapshot now c i h in
    let made_of : Installed = record {
      next = record snapshot { nodes = result.nodes; selectors = result.selectors };
      undo = record { previous = c.registry; undone = false };
      after = record { registry = r; server = set_selectors r c.server };
    } in
    let same : made_of ≡ i = ground arith in
    subst
      (λ (q : Installed).
        q.next ≡ record snapshot { nodes = q.next.nodes; selectors = q.next.selectors })
      same refl

abbrev IsInstalled : SubscriptionGeneration → RuntimeSnapshot → Coordinator → Installed → Type 0
IsInstalled g snapshot c i =
    AllRefer (ids i.next.nodes) i.next.selectors
    × (i.next ≡ record snapshot { nodes = i.next.nodes; selectors = i.next.selectors })
    × (i.after.registry.generation ≡ g.generation)
    × IsInForce i.after
    × ((undo_installation i.undo i.after).1 ≡ c)
    × (undo_installation (undo_installation i.undo i.after).0 c
        ≡ ((undo_installation i.undo i.after).0, c))
