-- ===== src/Graph/Merge.antt =====
-- What `mergeDeltas` of src/graph-model.ts makes of the nodes of its deltas.
use mazzy_command_center.Graph.{
  distinct, Graph, has_node, GraphDelta, merge_node, add_node, add_nodes, GraphNode, merge_deltas,
  merge_into,
}
use mathlib.Core.Path.{subst}
use Prim.Native.Nat.{◌≤◌}
use mazzy_command_center.Prelude.{
  ℕ, ◌+◌, true, false, List, [], ◌∷◌, ◌++◌, ◌≡◌, inl, inr, refl, sym, ap, arith, Text, Bool-cases,
  any_where, count_where, update_where, text_eq, text_eq-eq, any_where-count_where,
  count_where-append, count_where-update_where-le, update_where_none,
}

abbrev pub total : List GraphNode → ℕ
total [] = 0
total (n ∷ ns) = n.weight + total ns

-- No id stands twice.
abbrev pub UniqueIds : List GraphNode → Type 0
UniqueIds nodes = (id : Text) → count_where (has_node id) nodes ≤ 1

total-append : (xs : List GraphNode) (n : GraphNode) → total (xs ++ n ∷ []) ≡ total xs + n.weight
total-append [] n = omega arith
total-append (x ∷ xs) n = omega (arith, total-append xs n)

merge_node-id : (n prev : GraphNode) → (merge_node n prev).id ≡ prev.id
unfolding merge_node
merge_node-id n prev = refl

merge_node-weight : (n prev : GraphNode) → (merge_node n prev).weight ≡ prev.weight + n.weight
unfolding merge_node
merge_node-weight n prev = refl

-- A merge into the only node of an id adds the weight once.
total-update_where :
    (n : GraphNode) (nodes : List GraphNode)
    → any_where (has_node n.id) nodes ≡ true
    → count_where (has_node n.id) nodes ≤ 1
    → total (update_where (has_node n.id) (merge_node n) nodes) ≡ total nodes + n.weight
unfolding any_where count_where update_where
total-update_where n [] h one = cc
total-update_where n (x ∷ xs) h one = elim (Bool-cases (has_node n.id x)) [
  | inl here ↦ ground (
    arith,
    update_where_none (has_node n.id) (merge_node n) xs,
    merge_node-weight n x,
    ap total (update_where_none (has_node n.id) (merge_node n) xs (ground arith)),
  )
  | inr elsewhere ↦ ground (arith, total-update_where n xs)
]

add_node-total :
    (n : GraphNode) (nodes : List GraphNode)
    → UniqueIds nodes
    → total (add_node n nodes) ≡ total nodes + n.weight
unfolding add_node
add_node-total n nodes unique = elim (Bool-cases (any_where (has_node n.id) nodes)) [
  | inl there ↦ rw (add_node, there) (total-update_where n nodes there (unique n.id))
  | inr new ↦ rw (add_node, new) (total-append nodes _)
]

same_id_count :
    (id other : Text) (nodes : List GraphNode)
    → text_eq other id ≡ true
    → any_where (has_node other) nodes ≡ false
    → count_where (has_node id) nodes ≡ 0
same_id_count id other nodes same new =
    subst (λ k. count_where (has_node k) nodes ≡ 0) (text_eq-eq other id same)
      (any_where-count_where (has_node other) (has_node other) nodes (λ y h. h) new)

add_node-UniqueIds :
    (n : GraphNode) (nodes : List GraphNode) → UniqueIds nodes → UniqueIds (add_node n nodes)
unfolding add_node count_where
add_node-UniqueIds n nodes unique id = elim (Bool-cases (any_where (has_node n.id) nodes)) [
  | inl there ↦
      rw (add_node, there)
        (omega (
          arith,
          count_where-update_where-le (has_node id) (has_node n.id) (merge_node n) nodes
              (λ y t h. subst (λ k. text_eq k id ≡ false) (sym (merge_node-id n y)) h),
          unique id,
        ))
  | inr new ↦
      rw (add_node, new)
        (elim (Bool-cases (text_eq n.id id)) [
          | inl same ↦ ground (
            arith,
            count_where-append (has_node id) nodes (record n { sources = distinct n.sources } ∷ []),
            same_id_count id n.id nodes same new,
          )
          | inr apart ↦ ground (
            arith,
            count_where-append (has_node id) nodes (record n { sources = distinct n.sources } ∷ []),
            unique id,
          )
        ])
]

add_nodes-total :
    (ns nodes : List GraphNode)
    → UniqueIds nodes
    → (total (add_nodes ns nodes) ≡ total nodes + total ns) × UniqueIds (add_nodes ns nodes)
unfolding add_nodes
add_nodes-total [] nodes unique = (omega arith, unique)
add_nodes-total (n ∷ ns) nodes unique =
    let (sum, after) = add_nodes-total ns (add_node n nodes) (add_node-UniqueIds n nodes unique) in
    (omega (arith, sum, add_node-total n nodes unique), after)

-- The weights of all the nodes of the deltas.
abbrev pub total_of : List GraphDelta → ℕ
total_of [] = 0
total_of (d ∷ ds) = total d.nodes + total_of ds

merge_into-total :
    (ds : List GraphDelta) (g : Graph)
    → UniqueIds g.nodes
    → (total (merge_into ds g).nodes ≡ total g.nodes + total_of ds)
      × UniqueIds (merge_into ds g).nodes
unfolding merge_into
merge_into-total [] g unique = (omega arith, unique)
merge_into-total (d ∷ ds) g unique =
    let (sum, after) = add_nodes-total d.nodes g.nodes unique in
    let (whole, all_unique) = merge_into-total ds _ after in (omega (arith, sum, whole), all_unique)

no_node_unique : UniqueIds []
unfolding count_where
no_node_unique id = omega arith

-- The merged nodes have different ids, and together the weight of all the nodes of the deltas.
pub merge_deltas-total :
    (deltas : List GraphDelta)
    → (total (merge_deltas deltas).nodes ≡ total_of deltas) × UniqueIds (merge_deltas deltas).nodes
unfolding merge_deltas
merge_deltas-total deltas =
    let (sum, unique) =
      merge_into-total deltas (record { nodes = []; edges = [] }) no_node_unique in
    (omega (arith, sum), unique)
