-- ===== src/App/Examples.antt =====
-- The theorems on the event hub, at a run that fills, drops, cancels and closes, and on the coordinator,
-- at an installation of a second generation on the small view.
use kfadapter.Base.{[], ◌∷◌}
use kfadapter.Base.Bytes.{codes}
use kfadapter.Base.{ℕ, false, none, some, replicate, ◌++◌}
use kfadapter.Base.Bytes.{Bytes}
use kfadapter.State.Binding.{SubscriptionGeneration}
use kfadapter.State.Samples.{sample_node, sample_snapshot}
use kfadapter.Selector.Identity.{Primitives}
use kfadapter.Selector.Registry.{Generation}
use kfadapter.App.Coordinator.{Coordinator, Installed}
use kfadapter.App.Events.{
  Event, subscribing, closing, cancelling, receiving, publishing, new_event_hub, run,
}
use kfadapter.App.Events.Lifetime.{IsSound, run-IsSound}

abbrev news : Event
news = record { type_of = codes "state"; payload = [] }

run-IsSound_example : IsSound (
    run
      (subscribing
        ∷ subscribing
        ∷ subscribing
        ∷ publishing news
        ∷ publishing news
        ∷ cancelling 1
        ∷ cancelling 1
        ∷ receiving 2
        ∷ closing
        ∷ publishing news
        ∷ closing
        ∷ [])
      (new_event_hub 2 1))
run-IsSound_example = run-IsSound 2 1 (
    subscribing
    ∷ subscribing
    ∷ subscribing
    ∷ publishing news
    ∷ publishing news
    ∷ cancelling 1
    ∷ cancelling 1
    ∷ receiving 2
    ∷ closing
    ∷ publishing news
    ∷ closing
    ∷ [])

-- A MAC that is always the same, and an encoding that does nothing.
abbrev flat_primitives : Primitives
flat_primitives = record {
  mac = λ key message. replicate 32 7;
  encode = λ raw. raw;
  decode = λ text. some text;
  parse_addr = λ host. none;
  to_ascii = λ host. some host;
  to_lower = λ host. host;
}

abbrev registry_of : ℕ → Generation
registry_of n = record {
  generation = n;
  selector_key = replicate 32 1;
  proxy_auth_key = replicate 32 2;
}

abbrev second_generation : SubscriptionGeneration
second_generation = record {
  generation = 2;
  selector_key = replicate 32 1;
  proxy_auth_key = replicate 32 2;
  account_binding = [];
  activated_at = 100;
}

abbrev first_in_force : Coordinator
first_in_force = record { registry = registry_of 1; server = some (registry_of 1) }

abbrev derived_selector : Bytes
derived_selector = codes "n_" ++ replicate 12 7

abbrev second_installed : Installed
second_installed = record {
  next = record sample_snapshot {
    nodes = record sample_node { provider = codes "WIFIIN"; selector = derived_selector } ∷ [];
    selectors =
        (
          derived_selector,
          record { node_id = codes "n1"; generation = 2; tombstoned = false; tombstone_until = 0 },
        )
        ∷ [];
  };
  undo = record { previous = registry_of 1; undone = false };
  after = record { registry = registry_of 2; server = some (registry_of 2) };
}
