-- ===== src/Kuaifan/Refresh/Examples.antt =====
-- The theorems on the refresher, at two nodes, at calls that fail twice, and at a refresh of a manager that is
-- ready.
use kfadapter.Base.{ℕ, ◌≡◌, ◌≤◌, refl, Bool, true, false, List, [], ◌∷◌, if◌then◌else◌, ltb}
use kfadapter.Base.Bytes.{codes}
use kfadapter.State.Types.{Node}
use kfadapter.State.Snapshot.{node_by_id}
use kfadapter.State.Samples.{sample_node}
use kfadapter.State.Sessions.{}
use kfadapter.State.Binding.{}
use kfadapter.Kuaifan.Refresh.{merge_profile_nodes}
use kfadapter.Kuaifan.Refresh.Nodes.{distinct_ids, or_else, merge_profile_nodes-lem}
use kfadapter.Kuaifan.Refresh.Retry.{
  Attempt, value, fault, Fault, retry, attempts_of, retry_delay, backoff_bounds,
  default_max_backoff,
}
use kfadapter.Kuaifan.Refresh.Retry.Bounds.{IsRetried, retry-lem, retry_delay-le}
use kfadapter.Kuaifan.Refresh.Building.{}

abbrev other_node : Node
other_node = record sample_node { id = codes "n2" }

abbrev renamed_node : Node
renamed_node = record sample_node { name = codes "other" }

abbrev first_nodes : List Node
first_nodes = sample_node ∷ sample_node ∷ []

abbrev second_nodes : List Node
second_nodes = renamed_node ∷ other_node ∷ []

merge_profile_nodes-lem_example :
    (distinct_ids (merge_profile_nodes first_nodes second_nodes) ≡ true)
    × (node_by_id (codes "n1") (merge_profile_nodes first_nodes second_nodes)
        ≡ or_else (node_by_id (codes "n1") first_nodes) (node_by_id (codes "n1") second_nodes))
merge_profile_nodes-lem_example = merge_profile_nodes-lem first_nodes second_nodes (codes "n1")

-- Unavailable twice, then a value.
abbrev calls : ℕ → Attempt ℕ
calls i = if ltb i 2 then fault (Fault.http_status 503) else value 7

abbrev never : ℕ → Bool
never i = false

retry-lem_example :
    (1 ≤ attempts_of 4)
    × (attempts_of 4 ≤ 5)
    × IsRetried (attempts_of 4) 0 calls (retry (attempts_of 4) never calls)
retry-lem_example = retry-lem calls 4 never

abbrev bounds : ℕ × ℕ
bounds = (300_000_000, 2_000_000_000)

retry_delay-le_example :
    (retry_delay 300_000_000 2_000_000_000 [] (4000 ∷ []) 2 ≤ 2_000_000_000)
    × (2_000_000_000 ≤ default_max_backoff)
unfolding backoff_bounds
retry_delay-le_example = retry_delay-le 300_000_000 2_000_000_000 2 [] (4000 ∷ []) bounds refl
