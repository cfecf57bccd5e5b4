-- ===== src/State/Examples.antt =====
-- The theorems on the runtime view and the manager, each at the small installation.
use kfadapter.Base.{
  ◌≡◌, refl, true, false, List, [], ◌∷◌, none, some, arith, replicate, ◌↔◌, ◌⊎◌, ap,
}
use kfadapter.Base.Bytes.{codes}
use kfadapter.Base.Dict.{lookup}
use kfadapter.Base.Text.{utf8_valid, trim_space}
use kfadapter.State.Types.{
  effective_client_profile, syncing, login, refresh, failed, cancelled, Node, RuntimeSnapshot, ok,
  err, selector_unknown,
}
use kfadapter.State.Sessions.{
  sessions_valid, session_valid, valid_session_field, session_for, user_id,
}
use kfadapter.State.Snapshot.{
  validate_node, validate_runtime_snapshot, resolve_selector, session_usable,
}
use kfadapter.State.Snapshot.Validity.{IsWellFormed, validate_runtime_snapshot_iff}
use kfadapter.State.Snapshot.Resolution.{resolve_selector-valid}
use kfadapter.State.Manager.Pins.{
  IsPinOf, compact_pin-ok, session_current_pin-compact_pin, sign_out_shuts,
}
use kfadapter.State.Manager.Leases.{release_stale, bumps, bump}
use kfadapter.State.Manager.Publish.{IsPublishable, commit-ok, commit_serves}
use kfadapter.State.Manager.Setup.{rollback, new_manager_with_subscription}
use kfadapter.State.Manager.Installation.{
  Follows, install_subscription_generation-ok, rollback-install,
}
use kfadapter.State.Binding.{
  validate_subscription_generation, matches_account_binding, account_binding_for,
  canonical_provider_user_id,
}
use kfadapter.State.Manager.{Manager, Lease, begin, sign_out, release}
use kfadapter.State.Manager.Admission.{TunnelPin, compact_pin, session_current_pin}
use kfadapter.State.Manager.Publication.{commit}
use kfadapter.State.Manager.Trace.{Call, begins, finishes, moves, signs_out, expires, run, step}
use kfadapter.State.Samples.{
  live_ref, sample_snapshot, sample_hmac, bound_subscription, idle_manager, at_200, sample_is_valid,
  ready_manager, sample_commits, sample_pin, sample_pins, next_subscription, foreign_manager,
  installation, next_installs,
}

validate_runtime_snapshot_iff_example :
    (validate_runtime_snapshot at_200 sample_snapshot ≡ none) ↔ IsWellFormed at_200 sample_snapshot
validate_runtime_snapshot_iff_example = validate_runtime_snapshot_iff at_200 sample_snapshot

resolve_selector-valid_example :
    ((false ≡ false)
      × ((n : Node) × (resolve_selector sample_snapshot (codes "n_a") 200 ≡ ok (n, live_ref))
          × (n.id ≡ codes "n1")))
    ⊎ ((false ≡ true) × (resolve_selector sample_snapshot (codes "n_a") 200 ≡ err selector_unknown))
unfolding lookup
resolve_selector-valid_example =
    resolve_selector-valid at_200 sample_snapshot (codes "n_a") 200 live_ref sample_is_valid refl

compact_pin-ok_example :
    (s : RuntimeSnapshot) × IsPinOf ready_manager (codes "n_a") 1 200 sample_pin s
compact_pin-ok_example = compact_pin-ok ready_manager (codes "n_a") 1 200 sample_pin sample_pins

session_current_pin-compact_pin_example : session_current_pin ready_manager sample_pin 200 ≡ true
session_current_pin-compact_pin_example =
    session_current_pin-compact_pin ready_manager (codes "n_a") 1 200 sample_pin sample_pins

abbrev later_login : List Call
later_login = begins login ∷ moves syncing ∷ finishes at_200 5 login cancelled ∷ expires 300 ∷ []

sign_out_shuts_example :
    (compact_pin (run sample_hmac (sign_out ready_manager) later_login) (codes "n_a") 1 250
      ≡ err selector_unknown)
    × (session_current_pin (run sample_hmac (sign_out ready_manager) later_login) sample_pin 250
        ≡ false)
sign_out_shuts_example =
    sign_out_shuts sample_hmac ready_manager later_login (codes "n_a") 1 250 sample_pin refl

abbrev held : Lease
held = record { number = 4; operation = refresh; fired = false }

abbrev refreshing : Manager
refreshing = record ready_manager { state = syncing; active = some refresh; lease = 4 }

refresh_begins : begin refresh ready_manager ≡ ok (refreshing, held)
unfolding begin
refresh_begins = refl

release_stale_example :
    (release at_200 failed held (run sample_hmac refreshing (signs_out ∷ begins login ∷ []))).1
    ≡ run sample_hmac refreshing (signs_out ∷ begins login ∷ [])
unfolding bumps bump begin sign_out step
release_stale_example =
    release_stale sample_hmac refreshing (signs_out ∷ begins login ∷ []) at_200 failed held
      (omega arith) refl (omega arith) (omega arith)

abbrev logging_in : Manager
logging_in = record idle_manager { active = some login; lease = 4 }

abbrev held_login : Lease
held_login = record { number = 4; operation = login; fired = false }

commit-ok_example : IsPublishable sample_hmac at_200 sample_snapshot idle_manager
commit-ok_example =
    (commit-ok sample_hmac at_200 sample_snapshot idle_manager (ap (λ r. r.1) sample_commits)).0

commit_serves_example :
    (pin : TunnelPin) × (compact_pin
        (commit sample_hmac at_200 sample_snapshot idle_manager).0
        (codes "n_a")
        1
        200
      ≡ ok pin)
    × (pin.node.id ≡ codes "n1")
    × (pin.ref ≡ live_ref)
unfolding lookup
commit_serves_example =
    commit_serves sample_hmac 200 sample_snapshot idle_manager (codes "n_a") live_ref
      (ap (λ r. r.1) sample_commits) (omega arith) (omega arith) (λ e. cc) refl refl (λ e. cc)

install_subscription_generation-ok_example : Follows foreign_manager.subscription next_subscription
install_subscription_generation-ok_example =
    (install_subscription_generation-ok sample_hmac next_subscription (codes "u2") foreign_manager
      (record foreign_manager { subscription = next_subscription }) installation next_installs).2

rollback-install_example :
    (rollback installation (record foreign_manager { subscription = next_subscription })).1
    ≡ foreign_manager
rollback-install_example =
    (rollback-install sample_hmac next_subscription (codes "u2") foreign_manager
      (record foreign_manager { subscription = next_subscription }) installation next_installs).0

sample_restores :
    new_manager_with_subscription sample_hmac at_200
      (some sample_snapshot)
      bound_subscription
      (replicate 32 5)
    ≡ ok (record ready_manager { lease = 0 })
unfolding new_manager_with_subscription validate_subscription_generation matches_account_binding
    account_binding_for canonical_provider_user_id trim_space utf8_valid session_usable
    sessions_valid session_valid valid_session_field validate_runtime_snapshot session_for
    validate_node effective_client_profile user_id
sample_restores = refl
