-- ===== src/Kuaifan/Refresh/Building.antt =====
-- internal/kuaifan/refresh.go: the nodes of the lines, their selectors, and the snapshot that is published.
use kfadapter.Base.{
  ℕ, suc, ◌+◌, Bool, false, ◌||◌, not, List, [], ◌∷◌, ◌++◌, Option, none, some, is_empty, length,
  take, ◌==◌, if◌then◌else◌,
}
use kfadapter.Base.Bytes.{Bytes, codes}
use kfadapter.Base.Dict.{lookup, insert, member}
use kfadapter.State.Types.{
  ClientProfile, ios, windows, profile_valid, Node, Selectors, RuntimeSnapshot, AccountSummary,
  unknown, udp_unavailable,
}
use kfadapter.State.Manager.{u64}
use kfadapter.Selector.Identity.{CanonicalIdentity, NodeIdentity, decimal, canonicalize}
use kfadapter.Selector.Identity as Identity
use kfadapter.Kuaifan.Refresh.{
  Group, Line, Lines, CompleteProfile, Builder, RefreshError, Answer, done, fails, session_secrets,
  merge_profile_nodes,
}

abbrev pub selectors_for_generation : Selectors → ℕ → Selectors
selectors_for_generation [] generation = []
selectors_for_generation ((name, ref) ∷ m) generation =
    let rest = selectors_for_generation m generation in
    if ref.generation == generation then (name, ref) ∷ rest else rest

-- The selectors of a build, added to those of the generations before; none is a collision.
unfoldable pub add_selectors : Selectors → Selectors → Option Selectors
add_selectors m [] = some m
add_selectors m ((name, ref) ∷ more) =
    let rest = add_selectors (insert name ref m) more in
    elim (lookup name m) [ some r ↦ none | none ↦ rest ]

abbrev pub seen_number : ℕ → List ℕ → Bool
seen_number g [] = false
seen_number g (s ∷ ss) = s == g || seen_number g ss

-- The nodes are those of the first generation. `none` where the source returns an error.
unfoldable pub build_generations :
    Builder
    → List Node
    → Selectors
    → (ℕ → ℕ)
    → ℕ
    → List ℕ
    → List ℕ
    → Selectors
    → Option (Option (List Node) × Selectors)
unfolding add_selectors
build_generations b nodes previous clock k seen [] selectors = some (none, selectors)
build_generations b nodes previous clock k seen (g ∷ gs) selectors =
    let rest =
      λ (m : Selectors). build_generations b nodes previous clock (suc k) (g ∷ seen) gs m in
    if g == 0 || seen_number g seen
    then none
    else (elim (b.build g nodes (selectors_for_generation previous g) (clock k)) [
      | none ↦ none
      | some r ↦ elim (add_selectors selectors r.selectors) [
        | none ↦ none
        | some m ↦ elim (rest m) [ none ↦ none | some (later, n) ↦ some (some r.nodes, n) ]
      ]
    ])

-- A builder that knows its generations has at least one.
unfoldable pub build_selectors :
    Builder → List Node → Selectors → (ℕ → ℕ) → Option (List Node × Selectors)
unfolding build_generations
build_selectors b nodes previous clock =
    elim (build_generations b nodes previous clock 0 [] b.generations []) [
      | none ↦ none
      | some (none, selectors) ↦ none
      | some (some built, selectors) ↦ some (built, selectors)
    ]

-- `sum`: SHA-256. `encode`: raw Base64url.
pub record Codes : Type 0 where
  pub sum : Bytes → Bytes
  pub encode : Bytes → Bytes

unfoldable pub node_payload : CanonicalIdentity → Bytes → Bytes
node_payload i group_id =
    codes "kuaifan-line"
    ++ (0 ∷ (group_id ++ (0 ∷ (i.provider ++ (0 ∷ (i.host ++ (0 ∷ decimal 5 i.port)))))))

unfoldable pub node_id : Codes → CanonicalIdentity → Bytes → Bytes
unfolding node_payload
node_id c i group_id = codes "line_" ++ c.encode (take 12 (c.sum (node_payload i group_id)))

-- The last group with an identifier gives the name.
abbrev pub group_names : List Group → List (Bytes × Bytes) → List (Bytes × Bytes)
group_names [] m = m
group_names (g ∷ gs) m = group_names gs (insert g.id g.name m)

abbrev pub text_or_empty : Option Bytes → Bytes
text_or_empty none = []
text_or_empty (some s) = s

abbrev pub group_of : List (Bytes × Bytes) → Line → Bytes
group_of groups l =
    if is_empty l.group_name then text_or_empty (lookup l.group_id groups) else l.group_name

abbrev pub node_of_line : ClientProfile → Bytes → CanonicalIdentity → Bytes → Line → Node
node_of_line profile id i group l = record {
  id = id;
  selector = [];
  provider = i.provider;
  client_profile = profile;
  host = i.host;
  port = i.port;
  name = l.label;
  group = group;
  model = l.model;
  weight = l.weight;
  auto = l.auto;
  eligible = l.eligible;
  excluded = false;
  health = unknown;
  udp_health = udp_unavailable;
  tcp_rtt = 0;
  probed_at = 0;
}

abbrev pub identity_of_line : Line → NodeIdentity
identity_of_line l = record { node_id = []; provider = l.provider; host = l.host; port = l.port }

module _ (p : Identity.Primitives) (c : Codes) where
  unfoldable pub nodes_of :
      ClientProfile → List (Bytes × Bytes) → List Bytes → List Line → Option (List Node)
  unfolding node_id
  nodes_of profile groups seen [] = some []
  nodes_of profile groups seen (l ∷ ls) =
      let skipped = nodes_of profile groups seen ls in
      let rest = λ (id : Bytes). nodes_of profile groups (id ∷ seen) ls in
      elim (canonicalize p (identity_of_line l)) [
        | Identity.err e ↦ none
        | Identity.ok i ↦
            let id = node_id c i l.group_id in
            if member id seen then skipped else (elim (rest id) [
              | none ↦ none
              | some ns ↦ some (node_of_line profile id i (group_of groups l) l ∷ ns)
            ])
      ]

  unfoldable pub nodes_from_lines : Lines → ClientProfile → Answer (List Node)
  unfolding nodes_of
  nodes_from_lines lines profile =
      if not (profile_valid profile)
      then fails RefreshError.schema
      else (elim (nodes_of profile (group_names lines.groups []) [] lines.lines) [
        | none ↦ fails RefreshError.schema
        | some ns ↦ done ns
      ])

  abbrev pub next_generation : Option RuntimeSnapshot → ℕ
  next_generation none = 1
  next_generation (some s) = u64 (suc s.generation)

  abbrev pub previous_selectors : Option RuntimeSnapshot → Selectors
  previous_selectors none = []
  previous_selectors (some s) = s.selectors

  -- The snapshot of a generation, made at `now`.
  abbrev pub snapshot_of :
      ℕ
      → ℕ
      → ℕ
      → AccountSummary
      → CompleteProfile
      → CompleteProfile
      → List Node × Selectors
      → RuntimeSnapshot
  snapshot_of generation now lifetime account first second built = record {
    generation = generation;
    created_at = now;
    expires_at = now + lifetime;
    account = account;
    sessions = record {
      ios_session = session_secrets first;
      windows_session = session_secrets second;
    };
    nodes = built.0;
    selectors = built.1;
  }

  abbrev pub merged : Answer (List Node) → Answer (List Node) → Answer (List Node)
  merged (fails e) w = fails e
  merged (done i) (fails e) = fails e
  merged (done i) (done w) = done (merge_profile_nodes i w)

  abbrev pub built_snapshot :
      Builder
      → (ℕ → ℕ)
      → ℕ
      → Option RuntimeSnapshot
      → AccountSummary
      → CompleteProfile
      → CompleteProfile
      → Answer (List Node)
      → Answer RuntimeSnapshot
  built_snapshot b clock lifetime current account first second (fails e) = fails e
  built_snapshot b clock lifetime current account first second (done nodes) =
      elim (build_selectors b nodes (previous_selectors current) clock) [
        | none ↦ fails RefreshError.selectors_failed
        | some built ↦ done (
            snapshot_of (next_generation current) (clock (length b.generations)) lifetime account
              first second built)
      ]

  -- The snapshot that `commit` makes of the two profiles, over the current one.
  unfoldable pub make_snapshot :
      Builder
      → (ℕ → ℕ)
      → ℕ
      → Option RuntimeSnapshot
      → AccountSummary
      → CompleteProfile
      → CompleteProfile
      → Answer RuntimeSnapshot
  unfolding build_selectors nodes_from_lines
  make_snapshot b clock lifetime current account first second =
      if first.session.user_id == 0 || not (first.session.user_id == second.session.user_id)
      then fails RefreshError.schema
      else built_snapshot b clock lifetime current account first second
          (merged (nodes_from_lines first.lines ios) (nodes_from_lines second.lines windows))
