-- ===== src/Selector/Build.antt =====
-- internal/selector/credentials.go: `BuildWithTombstones`. The selected nodes stand with their flag
-- `active`; `activeIndex` gives the place of the node with a selector, so reading it is finding that
-- node. The range over a Go map takes the entries in the order of the list.
use kfadapter.Base.{
  ℕ, zero, suc, ◌+◌, ◌-◌, ◌≤◌, ◌<◌, ◌≡◌, refl, Bool, true, false, ◌&&◌, ◌||◌, not, List, [], ◌∷◌,
  ◌++◌, Option, none, some, is_empty, take, drop, length, ltb, leb, ◌==◌, if◌then◌else◌, arith,
}
use kfadapter.Base.Bytes.{Bytes, bytes_eq}
use kfadapter.Base.Dict.{insert, member}
use kfadapter.State.Types.{Node, NodeRef, Selectors, is_tombstoned}
use kfadapter.Selector.Identity.{
  Primitives, Result, ok, err, SelectorError, NodeIdentity, CanonicalIdentity, Credentials,
  canonicalize, derive_canonical, unknown_generation, duplicate_node_id, too_many_nodes,
  too_many_selectors,
}
use kfadapter.Selector.Registry.{Generation, load}
pub mod Entries
pub mod Remapping
pub mod Carrying
pub mod Tombstones
pub mod Entrywise
pub mod Complete
pub mod References

abbrev pub max_live_selectors : ℕ
max_live_selectors = 4096

abbrev pub max_tombstones : ℕ
max_tombstones = 8192

abbrev pub max_previous_selectors : ℕ
max_previous_selectors = 24_576

-- 24 hours, in nanoseconds.
abbrev pub default_tombstone_grace : ℕ
default_tombstone_grace = 86_400_000_000_000

abbrev pub Entries : Type 0
Entries = List (Node × Bool)

pub record BuildResult : Type 0 where
  pub nodes : List Node
  pub selectors : Selectors

abbrev pub identity_of_node : Node → NodeIdentity
identity_of_node n = record { node_id = n.id; provider = n.provider; host = n.host; port = n.port }

abbrev pub selected_node : Node → CanonicalIdentity → Credentials → Node
selected_node n i c = record n {
  provider = i.provider;
  host = i.host;
  port = i.port;
  selector = c.selector;
}

-- One round of the first loop: the node as it is selected.
module _ (p : Primitives) (keys : Generation) where
  select_with : Node → List Bytes → CanonicalIdentity → Result Credentials → Result Node
  select_with n selectors i (err e) = err e
  select_with n selectors i (ok c) =
      if member c.selector selectors then err duplicate_node_id else ok (selected_node n i c)

  select_identity : Node → List Bytes → Result CanonicalIdentity → Result Node
  unfolding select_with
  select_identity n selectors (err e) = err e
  select_identity n selectors (ok i) =
      select_with n selectors i (derive_canonical p i keys.selector_key keys.proxy_auth_key)

  select_one : List Bytes → List Bytes → Node → Result Node
  unfolding select_identity
  select_one ids selectors n =
      if is_empty n.id || member n.id ids
      then err duplicate_node_id
      else select_identity n selectors (canonicalize p (identity_of_node n))

  pub select_next : Result Node → (Node → Result Entries) → Result Entries
  select_next (err e) rest = err e
  select_next (ok n) rest = elim (rest n) [ err e ↦ err e | ok entries ↦ ok ((n, true) ∷ entries) ]

  -- The loop: `ids` and `selectors` are those of the nodes before.
  pub select_nodes : List Bytes → List Bytes → List Node → Result Entries
  unfolding select_one select_next
  select_nodes ids selectors [] = ok []
  select_nodes ids selectors (n ∷ ns) =
      select_next (select_one ids selectors n)
        (λ (m : Node). select_nodes (n.id ∷ ids) (m.selector ∷ selectors) ns)

-- `selected[activeIndex[name]]`
pub find_entry : Bytes → Entries → Option Node
find_entry name [] = none
find_entry name ((n, a) ∷ es) = if bytes_eq n.selector name then some n else find_entry name es

-- `active[activeIndex[name]] = false`, where there is one.
pub deactivate : Bytes → Entries → Entries
deactivate name [] = []
deactivate name ((n, a) ∷ es) =
    (n, if bytes_eq n.selector name then false else a) ∷ deactivate name es

-- The second loop: what became of the flags, and the tombstones.
abbrev pub Carried : Type 0
Carried = Entries × Selectors

abbrev pub buried : ℕ → ℕ → NodeRef
buried want now = record {
  node_id = [];
  generation = want;
  tombstoned = true;
  tombstone_until = now + default_tombstone_grace;
}

pub carry_live : ℕ → ℕ → Bytes → NodeRef → Option Node → Carried → Carried
unfolding deactivate
carry_live want now name ref none (entries, stones) =
    (entries, stones ++ ((name, buried want now) ∷ []))
carry_live want now name ref (some n) (entries, stones) =
    if bytes_eq ref.node_id n.id
    then (entries, stones)
    else (deactivate name entries, stones ++ ((name, buried want now) ∷ []))

pub carry_one : ℕ → ℕ → Bytes → NodeRef → Carried → Carried
unfolding carry_live deactivate find_entry is_tombstoned
carry_one want now name ref (entries, stones) =
    if not (ref.generation == want)
    then (entries, stones)
    else if ref.tombstoned
    then (if not (is_tombstoned ref now)
        then (entries, stones)
        else (deactivate name entries, stones ++ ((name, record ref { node_id = [] }) ∷ [])))
    else carry_live want now name ref (find_entry name entries) (entries, stones)

pub carry : ℕ → ℕ → Selectors → Carried → Carried
unfolding carry_one
carry want now [] c = c
carry want now ((name, ref) ∷ previous) c = carry want now previous (carry_one want now name ref c)

-- `<` on strings.
abbrev pub bytes_lt : Bytes → Bytes → Bool
bytes_lt [] [] = false
bytes_lt [] (y ∷ ys) = true
bytes_lt (x ∷ xs) [] = false
bytes_lt (x ∷ xs) (y ∷ ys) = ltb x y || (x == y && bytes_lt xs ys)

abbrev pub stone_lt : Bytes × NodeRef → Bytes × NodeRef → Bool
stone_lt (s, r) (t, q) =
    if not (r.tombstone_until == q.tombstone_until)
    then ltb r.tombstone_until q.tombstone_until
    else bytes_lt s t

-- `sort.Slice`; the order is total on the entries of a map, so every sorting gives the same list.
pub insert_sorted : Bytes × NodeRef → Selectors → Selectors
insert_sorted x [] = x ∷ []
insert_sorted x (y ∷ ys) = if stone_lt y x then y ∷ insert_sorted x ys else x ∷ y ∷ ys

pub sort_stones : Selectors → Selectors
unfolding insert_sorted
sort_stones [] = []
sort_stones (x ∷ xs) = insert_sorted x (sort_stones xs)

-- The slice bound keeps the last `max_tombstones`.
abbrev pub latest : Selectors → Selectors
latest stones =
    if ltb max_tombstones (length stones)
    then drop (length stones - max_tombstones) stones
    else stones

-- The two loops that fill the result.
pub live_nodes : Entries → List Node
live_nodes [] = []
live_nodes ((n, a) ∷ es) = if a then n ∷ live_nodes es else live_nodes es

pub add_live : ℕ → Entries → Selectors → Selectors
add_live want [] m = m
add_live want ((n, a) ∷ es) m = add_live want es (
    if a
    then insert n.selector
        (record { node_id = n.id; generation = want; tombstoned = false; tombstone_until = 0 }) m
    else m)

pub add_stones : Selectors → Selectors → Selectors
add_stones [] m = m
add_stones ((name, ref) ∷ stones) m = add_stones stones (insert name ref m)

pub finish : ℕ → Carried → BuildResult
unfolding live_nodes add_live add_stones sort_stones
finish want (entries, stones) = record {
  nodes = live_nodes entries;
  selectors = add_stones (latest (sort_stones stones)) (add_live want entries []);
}

build_from : ℕ → ℕ → Selectors → Result Entries → Result BuildResult
unfolding finish carry
build_from want now previous (err e) = err e
build_from want now previous (ok entries) = ok (finish want (carry want now previous (entries, [])))

pub build_with_keys :
    Primitives → ℕ → List Node → Selectors → ℕ → Option Generation → Result BuildResult
unfolding build_from select_nodes
build_with_keys p want nodes previous now none = err unknown_generation
build_with_keys p want nodes previous now (some keys) =
    if ltb max_live_selectors (length nodes)
    then err too_many_nodes
    else if ltb max_previous_selectors (length previous)
    then err too_many_selectors
    else build_from want now previous (select_nodes p keys [] [] nodes)

unfoldable pub build_with_tombstones :
    Primitives → Generation → ℕ → List Node → Selectors → ℕ → Result BuildResult
unfolding build_with_keys load
build_with_tombstones p r want nodes previous now =
    build_with_keys p want nodes previous now (load want r)
