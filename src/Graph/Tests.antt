-- ===== src/Graph/Tests.antt =====
-- Two deltas of src/graph-model.ts merged and swept, and the theorems applied to them.
use mazzy_command_center.Graph.Merge.{merge_deltas-total, UniqueIds, total_of, total}
use mazzy_command_center.Graph.Sweep.{sweep_dangling-anchored, is_anchored}
use mazzy_command_center.Prelude.{
  ℕ, true, List, [], ◌∷◌, none, ◌≡◌, refl, Text, codes, text_eq, any_where, all_where, update_where,
}
use mazzy_command_center.Graph.{
  merge_node, add_edge, add_node, add_edges, ghost_kind, add_nodes, ensure_ghost, has_node,
  merge_into, sweep_edges, sweep_dangling, merge_deltas, file, code, governs, GraphNode, GraphEdge,
  GraphDelta, Graph,
}

abbrev source_node : ℕ → GraphNode
source_node weight = record {
  id = codes "file:a.ts";
  kind = file;
  domain = code;
  label = codes "a.ts";
  ref = none;
  status = none;
  weight = weight;
  sources = codes "spec" ∷ [];
  meta = none;
}

abbrev edge_from : Text → GraphEdge
edge_from from = record {
  id = from;
  from = from;
  to = codes "file:a.ts";
  kind = governs;
  weight = 1;
  sources = [];
}

abbrev deltas : List GraphDelta
deltas =
    record { nodes = source_node 2 ∷ []; edges = edge_from (codes "adr:ADR-001") ∷ [] }
    ∷ record { nodes = source_node 3 ∷ []; edges = edge_from (codes "file:gone.ts") ∷ [] }
    ∷ []

abbrev merged : Graph
merged = record {
  nodes = source_node 5 ∷ [];
  edges = edge_from (codes "adr:ADR-001") ∷ edge_from (codes "file:gone.ts") ∷ [];
}

merges : merge_deltas deltas ≡ merged
unfolding merge_deltas merge_into add_nodes add_edges add_node add_edge merge_node text_eq any_where
    update_where
merges = refl

-- The missing decision becomes a gap, and the edge of the missing file goes.
one_gap : (sweep_dangling merged).1 ≡ codes "adr:ADR-001" ∷ []
unfolding sweep_dangling sweep_edges ensure_ghost ghost_kind text_eq any_where
one_gap = refl

one_edge : (sweep_dangling merged).0.edges ≡ edge_from (codes "adr:ADR-001") ∷ []
unfolding sweep_dangling sweep_edges ensure_ghost ghost_kind text_eq any_where
one_edge = refl

merge_deltas-total_example :
    (total (merge_deltas deltas).nodes ≡ total_of deltas) × UniqueIds (merge_deltas deltas).nodes
merge_deltas-total_example = merge_deltas-total deltas

sweep_dangling-anchored_example :
    (all_where (is_anchored (sweep_dangling merged).0.nodes) (sweep_dangling merged).0.edges ≡ true)
    × ((id : Text)
        → any_where (has_node id) merged.nodes ≡ true
        → any_where (has_node id) (sweep_dangling merged).0.nodes ≡ true)
sweep_dangling-anchored_example = sweep_dangling-anchored merged
