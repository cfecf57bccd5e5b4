-- ===== src/Selector/Examples.antt =====
-- The theorems on credentials, each at one node and one pair of keys.
use mathlib.Core.List.{mem-cons_self}
use kfadapter.State.Snapshot.Validity.{AllRefer, ids}
use kfadapter.Selector.Build.References.{build_with_tombstones-AllRefer}
use kfadapter.Base.{
  inr, ℕ, ◌-◌, ◌*◌, ◌/◌, ◌≡◌, ◌⊎◌, refl, ap, ◌∙◌, true, false, [], ◌∷◌, ◌++◌, none, some, arith,
  replicate, length, take, length-append, length-replicate, take-append_at,
}
use kfadapter.Base.Bytes.{Bytes, codes}
use kfadapter.Base.Dict.{lookup, insert}
use kfadapter.State.Types as Types
use kfadapter.State.Types.{
  Node, NodeRef, RuntimeSnapshot, unset, unknown, udp_unknown, is_tombstoned, no_account,
}
use kfadapter.State.Samples.{sample_node, sample_snapshot, live_ref}
use kfadapter.State.Snapshot.{resolve_selector, node_by_id}
use kfadapter.Selector.Identity.{
  Primitives, Credentials, NodeIdentity, CanonicalIdentity, ok, canonicalize, canonical_provider,
  canonical_host, derive, derive_from, derive_canonical, decimal, fingerprint, password_for,
}
use kfadapter.Selector.Identity.Fingerprint.{IsPlain, canonicalize-IsPlain, fingerprint-injective}
use kfadapter.Selector.Registry.{
  Generation, credentials, authenticate_at, valid_credential, load, resolve, encoded_len,
}
use kfadapter.Selector.Registry.Authentication.{IsLawful, credentials-authenticate_at, resolve-ok}
use kfadapter.Selector.Build.{BuildResult, build_with_tombstones}
use kfadapter.Selector.Build.Tombstones.{build_with_tombstones-remap}

-- A MAC of 32 bytes, and an encoding of Base64's lengths that only fills up.
abbrev filled : Bytes → Bytes
filled raw = raw ++ replicate (encoded_len (length raw) - length raw) 0

abbrev plain_primitives : Primitives
plain_primitives = record {
  mac = λ key message. replicate 32 (length message);
  encode = filled;
  decode = λ text. some (take (length text * 6 / 8) text);
  parse_addr = λ host. none;
  to_ascii = λ host. some host;
  to_lower = λ host. host;
}

filled_size : (raw : Bytes) → length (filled raw) ≡ encoded_len (length raw)
filled_size raw =
    let k = encoded_len (length raw) - length raw in
    let whole = length-append raw (replicate k 0) in
    let rest = length-replicate {A = ℕ} k 0 in omega (arith, whole, rest)

decode-filled : (raw : Bytes) → some (take (length (filled raw) * 6 / 8) (filled raw)) ≡ some raw
decode-filled raw =
    let size : length (filled raw) * 6 / 8 ≡ length raw = omega (arith, filled_size raw) in
    ap (λ (n : ℕ). some (take n (filled raw))) size
    ∙ ap some
        (take-append_at (length raw) raw (replicate (encoded_len (length raw) - length raw) 0) refl)

plain_primitives-IsLawful : IsLawful plain_primitives
plain_primitives-IsLawful = record {
  mac_size = λ key message. length-replicate {A = ℕ} 32 (length message);
  encode_size = filled_size;
  decode-encode = decode-filled;
}

abbrev sample_identity : NodeIdentity
sample_identity = record {
  node_id = codes "n1";
  provider = codes "wifiin";
  host = codes "example.net";
  port = 443;
}

abbrev canonical_identity : CanonicalIdentity
canonical_identity = record {
  node_id = codes "n1";
  provider = codes "WIFIIN";
  host = codes "example.net";
  port = 443;
}

canonicalized : canonicalize plain_primitives sample_identity ≡ ok canonical_identity
unfolding canonicalize canonical_host canonical_provider
canonicalized = refl

canonical_identity-IsPlain : IsPlain canonical_identity
canonical_identity-IsPlain =
    canonicalize-IsPlain plain_primitives sample_identity canonical_identity
      (λ host address h. absurd (ground arith)) canonicalized

fingerprint-injective_example : canonical_identity ≡ canonical_identity
fingerprint-injective_example =
    fingerprint-injective canonical_identity canonical_identity canonical_identity-IsPlain
      canonical_identity-IsPlain refl

abbrev sample_registry : Generation
sample_registry = record {
  generation = 1;
  selector_key = replicate 32 1;
  proxy_auth_key = replicate 32 2;
}

abbrev sample_selector : Bytes
sample_selector = codes "n_" ++ (replicate 12 36 ++ replicate 4 0)

abbrev sample_password : Bytes
sample_password = codes "p_" ++ (replicate 18 36 ++ replicate 6 0)

abbrev sample_credentials : Credentials
sample_credentials = record { selector = sample_selector; password = sample_password }

handed_out :
    credentials plain_primitives 1 sample_identity sample_registry ≡ some sample_credentials
unfolding credentials derive derive_from derive_canonical canonicalize canonical_host
    canonical_provider fingerprint decimal password_for
handed_out = refl

credentials-authenticate_at_example :
    authenticate_at plain_primitives sample_registry sample_selector sample_password ≡ some 1
credentials-authenticate_at_example =
    credentials-authenticate_at plain_primitives sample_registry 1 sample_identity
      sample_credentials plain_primitives-IsLawful handed_out

-- The small installation's view, its selector the one derived.
abbrev served_snapshot : RuntimeSnapshot
served_snapshot = record sample_snapshot { selectors = (sample_selector, live_ref) ∷ [] }

served :
    resolve plain_primitives sample_registry served_snapshot sample_selector sample_password 200
    ≡ Types.ok (sample_node, live_ref)
unfolding resolve authenticate_at valid_credential password_for resolve_selector lookup
    is_tombstoned node_by_id
served = refl

resolve-ok_example :
    (sample_password ≡ password_for plain_primitives sample_registry.proxy_auth_key sample_selector)
    × (lookup sample_selector served_snapshot.selectors ≡ some live_ref)
    × (1 ≡ sample_registry.generation)
    × (live_ref.tombstoned ≡ false)
    × (sample_node.id ≡ live_ref.node_id)
resolve-ok_example =
    resolve-ok plain_primitives sample_registry served_snapshot sample_selector sample_password 200
      sample_node live_ref served

-- A build in which the node comes back under the selector that it had.
abbrev rebuilt : BuildResult
rebuilt = record {
  nodes = record sample_node { provider = codes "WIFIIN"; selector = sample_selector } ∷ [];
  selectors = (sample_selector, live_ref) ∷ [];
}

rebuilds :
    build_with_tombstones plain_primitives sample_registry 1
      (sample_node ∷ [])
      ([] ++ ((sample_selector, live_ref) ∷ []))
      200
    ≡ ok rebuilt
unfolding build_with_tombstones derive_canonical canonicalize canonical_host canonical_provider
    fingerprint decimal password_for insert is_tombstoned load
rebuilds = refl

build_with_tombstones-remap_example :
    (live_ref.tombstoned ≡ true)
    ⊎ ((is_tombstoned live_ref 200 ≡ false)
        × (live_ref.tombstoned ≡ false → live_ref.node_id ≡ live_ref.node_id))
unfolding lookup
build_with_tombstones-remap_example =
    build_with_tombstones-remap plain_primitives sample_registry 1 200 (sample_node ∷ []) [] []
      sample_selector live_ref live_ref rebuilt rebuilds refl refl

build_with_tombstones-AllRefer_example : AllRefer (ids rebuilt.nodes) rebuilt.selectors
build_with_tombstones-AllRefer_example =
    build_with_tombstones-AllRefer plain_primitives sample_registry 1 200 (sample_node ∷ [])
      (codes "n1" ∷ []) ((sample_selector, live_ref) ∷ []) rebuilt (λ e. omega (arith, e))
      (
        (
          (λ e. ground arith),
          ((λ e. omega (arith, e)), inr (refl, (λ e. ground arith), mem-cons_self)),
        ),
        tt,
      )
      rebuilds
