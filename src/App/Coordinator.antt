-- ===== src/App/Coordinator.antt =====
-- internal/app/selector_coordinator.go: the coordinator keeps the registry in force, here with the
-- authority of the SOCKS server that it was given, if any. `SetSelectors` of a server on a registry
-- that is not nil succeeds. The critical section is one step.
use kfadapter.Base.{
  ℕ, ◌≡◌, Bool, true, false, List, [], ◌∷◌, Option, none, some, ◌==◌, if◌then◌else◌,
}
use kfadapter.Base.Bytes.{Bytes}
use kfadapter.State.Types.{Node, NodeRef, Selectors, RuntimeSnapshot}
use kfadapter.State.Binding.{SubscriptionGeneration}
use kfadapter.Selector.Identity.{Primitives, Result, ok, err}
use kfadapter.Selector.Registry.{Generation, make_generation}
use kfadapter.Selector.Build.{BuildResult, build_with_tombstones}
pub mod Installation

pub record Coordinator : Type 0 where
  pub registry : Generation
  pub server : Option Generation

-- The function that `InstallGeneration` returns: the registry before, and its `sync.Once`.
pub record Undo : Type 0 where
  pub previous : Generation
  pub undone : Bool

-- `c.socks.SetSelectors`, where there is a server.
abbrev pub set_selectors : Generation → Option Generation → Option Generation
set_selectors registry none = none
set_selectors registry (some old) = some registry

-- The selectors of the generation that is installed.
abbrev pub of_generation : ℕ → Selectors → Selectors
of_generation generation [] = []
of_generation generation ((name, ref) ∷ m) =
    if ref.generation == generation
    then (name, ref) ∷ of_generation generation m
    else of_generation generation m

pub record Installed : Type 0 where
  pub next : RuntimeSnapshot
  pub undo : Undo
  pub after : Coordinator

install_result : Coordinator → Generation → RuntimeSnapshot → Result BuildResult → Result Installed
install_result c registry snapshot (err e) = err e
install_result c registry snapshot (ok result) = ok (record {
  next = record snapshot { nodes = result.nodes; selectors = result.selectors };
  undo = record { previous = c.registry; undone = false };
  after = record { registry = registry; server = set_selectors registry c.server };
})

install_with :
    Primitives → ℕ → RuntimeSnapshot → ℕ → Coordinator → Result Generation → Result Installed
unfolding install_result
install_with p generation snapshot now c (err e) = err e
install_with p generation snapshot now c (ok registry) = install_result c registry snapshot (
    build_with_tombstones p registry generation snapshot.nodes
      (of_generation generation snapshot.selectors) now)

unfoldable pub install_generation :
    Primitives → SubscriptionGeneration → RuntimeSnapshot → ℕ → Coordinator → Result Installed
unfolding install_with
install_generation p g snapshot now c =
    install_with p g.generation snapshot now c
      (make_generation g.generation g.selector_key g.proxy_auth_key)

unfoldable pub undo_installation : Undo → Coordinator → Undo × Coordinator
undo_installation u c = if u.undone then (u, c) else (
  record u { undone = true },
  record { registry = u.previous; server = set_selectors u.previous c.server },
)
