-- ===== src/Selector/Build/References.antt =====
-- The selectors of a build pass the check of the runtime view that holds its nodes.
use mathlib.Core.List.{mem-cons_self, mem-cons_of_mem}
use kfadapter.Base.{
  ℕ, ◌≡◌, ◌≢◌, inl, inr, refl, sym, ◌∙◌, subst, true, false, List, [], ◌∷◌, ◌++◌, arith, All,
}
use kfadapter.Base.Bytes.{Bytes}
use kfadapter.Base.Dict.{insert}
use kfadapter.State.Types.{Node, NodeRef, Selectors}
use kfadapter.State.Snapshot.Validity.{ids, AllRefer}
use kfadapter.Selector.Identity.{
  Primitives, ok, Result-cases, canonicalize, derive_canonical, selector_prefix,
}
use kfadapter.Selector.Registry.{Generation, load}
use kfadapter.Selector.Registry.Authentication.{derive_canonical-ok}
use kfadapter.Selector.Build.{
  Entries, BuildResult, carry, add_live, add_stones, live_nodes, sort_stones, latest, select_nodes,
  select_one, select_identity, select_with, identity_of_node, finish, build_with_tombstones,
}
use kfadapter.Selector.Build.Remapping.{select_next-ok}
use kfadapter.Selector.Build.Tombstones.{build_with_keys-ok}
use kfadapter.Selector.Build.Entrywise.{insert-All, sort_stones-All, latest-All, add_stones-All}
use kfadapter.Selector.Build.Complete.{
  IsBuried, IsReference, IsNamed, IsKnown, IsCarried, carry-IsCarried,
}

prefixed : (s : Bytes) → selector_prefix ++ s ≢ []
prefixed s = λ e. ground arith

select_one-IsNamed :
    (p : Primitives) (keys : Generation) (known selectors : List Bytes) (n m : Node)
    → select_one p keys known selectors n ≡ ok m
    → (m.id ≢ []) × (m.selector ≢ [])
unfolding select_one select_identity select_with
select_one-IsNamed p keys known selectors n m h =
    elim (Result-cases (canonicalize p (identity_of_node n))) [
      | inr (x, e) ↦ absurd (ground arith)
      | inl (i, e) ↦
          elim (Result-cases (derive_canonical p i keys.selector_key keys.proxy_auth_key)) [
            | inr (x, e') ↦ absurd (ground arith)
            | inl (c, e') ↦
                let shape =
                  (derive_canonical-ok p i keys.selector_key keys.proxy_auth_key c e').0 in
                let selector : m.selector ≡ c.selector = ground arith in
                ((λ x. ground arith), λ x. prefixed _ (sym shape ∙ sym selector ∙ x))
          ]
    ]

select_nodes-IsNamed :
    (p : Primitives) (keys : Generation) (known selectors : List Bytes) (ns : List Node)
    (es : Entries)
    → select_nodes p keys known selectors ns ≡ ok es
    → All IsNamed es
unfolding select_nodes
select_nodes-IsNamed p keys known selectors [] [] h = tt
select_nodes-IsNamed p keys known selectors [] (x ∷ es) h = absurd (ground arith)
select_nodes-IsNamed p keys known selectors (n ∷ ns) es h =
    let (m, tail, e, e', s) =
      select_next-ok p keys (select_one p keys known selectors n)
        (λ (x : Node). select_nodes p keys (n.id ∷ known) (x.selector ∷ selectors) ns) es h in
    let (some_id, some_selector) = select_one-IsNamed p keys known selectors n m e in
    subst (All IsNamed) (sym s) (
      (some_id, some_selector),
      select_nodes-IsNamed p keys (n.id ∷ known) (m.selector ∷ selectors) ns tail e',
    )

IsKnown-cons :
    (x : Bytes) (known : List Bytes) (es : Entries)
    → All (IsKnown known) es
    → All (IsKnown (x ∷ known)) es
IsKnown-cons x known [] h = tt
IsKnown-cons x known ((n, a) ∷ es) (p, h) =
    ((λ on. mem-cons_of_mem x (p on)), IsKnown-cons x known es h)

live_nodes-IsKnown : (es : Entries) → All (IsKnown (ids (live_nodes es))) es
unfolding live_nodes
live_nodes-IsKnown [] = tt
live_nodes-IsKnown ((n, true) ∷ es) =
    ((λ on. mem-cons_self), IsKnown-cons n.id (ids (live_nodes es)) es (live_nodes-IsKnown es))
live_nodes-IsKnown ((n, false) ∷ es) = ((λ on. absurd (ground arith)), live_nodes-IsKnown es)

add_live-IsReference :
    (want : ℕ) (known : List Bytes) (es : Entries) (m : Selectors)
    → want ≢ 0
    → All IsNamed es
    → All (IsKnown known) es
    → All (IsReference known) m
    → All (IsReference known) (add_live want es m)
unfolding add_live
add_live-IsReference want known [] m w named k h = h
add_live-IsReference want known ((n, false) ∷ es) m w (p, named) (q, k) h =
    add_live-IsReference want known es m w named k h
add_live-IsReference want known ((n, true) ∷ es) m w (p, named) (q, k) h =
    let ref : NodeRef = record {
      node_id = n.id;
      generation = want;
      tombstoned = false;
      tombstone_until = 0;
    } in
    add_live-IsReference want known es (insert n.selector ref m) w named k
      (insert-All (IsReference known) n.selector ref m (p.1, (w, inr (refl, p.0, q refl))) h)

buried-IsReference :
    (known : List Bytes) (m : Selectors) → All IsBuried m → All (IsReference known) m
buried-IsReference known [] h = tt
buried-IsReference known ((name, ref) ∷ m) ((n, g, t, i, u), h) =
    ((n, (g, inl (t, i, u))), buried-IsReference known m h)

references-AllRefer :
    (known : List Bytes) (m : Selectors) → All (IsReference known) m → AllRefer known m
references-AllRefer known [] h = tt
references-AllRefer known ((name, ref) ∷ m) (p, h) = (p, references-AllRefer known m h)

finish-AllRefer :
    (want : ℕ) (es : Entries) (stones : Selectors)
    → want ≢ 0
    → IsCarried (es, stones)
    → AllRefer (ids (finish want (es, stones)).nodes) (finish want (es, stones)).selectors
unfolding finish
finish-AllRefer want es stones w (e, s) =
    let known = ids (live_nodes es) in
    references-AllRefer known (add_stones (latest (sort_stones stones)) (add_live want es [])) (
      add_stones-All (IsReference known) (latest (sort_stones stones)) (add_live want es [])
        (buried-IsReference known (latest (sort_stones stones))
          (latest-All IsBuried (sort_stones stones) (sort_stones-All IsBuried stones s)))
        (add_live-IsReference want known es [] w e (live_nodes-IsKnown es) tt))

-- A build for a numbered generation, whose prior selectors were those of a valid view, gives selectors
-- that pass that check for the nodes it gives: each is a complete tombstone with an end, or refers
-- to one of these nodes.
pub build_with_tombstones-AllRefer :
    (p : Primitives) (r : Generation) (want now : ℕ) (nodes : List Node) (known : List Bytes)
    (previous : Selectors) (result : BuildResult)
    → want ≢ 0
    → AllRefer known previous
    → build_with_tombstones p r want nodes previous now ≡ ok result
    → AllRefer (ids result.nodes) result.selectors
unfolding build_with_tombstones
build_with_tombstones-AllRefer p r want now nodes known previous result w valid h =
    let (keys, es, selected, same) =
      build_with_keys-ok p want nodes previous now (load want r) result h in
    let c = carry want now previous (es, []) in
    let kept =
      carry-IsCarried want now known previous es [] w valid
        (select_nodes-IsNamed p keys [] [] nodes es selected, tt) in
    subst (λ (b : BuildResult). AllRefer (ids b.nodes) b.selectors) (sym same)
      (finish-AllRefer want c.0 c.1 w kept)
