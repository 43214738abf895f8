-- ===== src/Graph.antt =====
-- src/graph-model.ts: the graph of specifications, components and backlog. A `Map` keyed by ids is
-- the list of its values in the order of insertion, each of which holds its own key.
pub mod Sweep
pub mod Merge
mod Tests
use mazzy_command_center.Prelude.{
  ℕ, ◌+◌, Bool, true, false, List, [], ◌∷◌, ◌++◌, Option, none, some, ◌&&◌, ◌||◌, not, ◌==◌,
  if◌then◌else◌, Text, codes, text_eq, is_empty, find, filter_where, update_where, any_where,
  is_some,
}

pub data NodeDomain : Type 0 where
  spec code backlog memory : NodeDomain

pub data NodeKind : Type 0 where
  adr inv fr us nfr req file symbol epic feature task note vector : NodeKind

pub data EdgeKind : Type 0 where
  governs realizes references depends renames contains : EdgeKind

pub data MetaValue : Type 0 where
  text : Text → MetaValue
  number : ℕ → MetaValue
  flag : Bool → MetaValue

pub record GraphNode : Type 0 where
  pub id : Text
  pub kind : NodeKind
  pub domain : NodeDomain
  pub label : Text
  pub ref : Option Text
  pub status : Option Text
  pub weight : ℕ
  pub sources : List Text
  pub meta : Option (List (Text × MetaValue))

pub record GraphEdge : Type 0 where
  pub id : Text
  pub from : Text
  pub to : Text
  pub kind : EdgeKind
  pub weight : ℕ
  pub sources : List Text

pub record GraphDelta : Type 0 where
  pub nodes : List GraphNode
  pub edges : List GraphEdge

pub record Graph : Type 0 where
  pub nodes : List GraphNode
  pub edges : List GraphEdge

unfoldable pub domain_of : NodeKind → NodeDomain
domain_of adr = spec
domain_of inv = spec
domain_of fr = spec
domain_of us = spec
domain_of nfr = spec
domain_of req = spec
domain_of file = code
domain_of symbol = code
domain_of epic = backlog
domain_of feature = backlog
domain_of task = backlog
domain_of note = memory
domain_of vector = memory

-- `[...new Set(list)]`: the first occurrence of each text.
abbrev pub distinct_after : List Text → List Text → List Text
distinct_after seen [] = []
distinct_after seen (x ∷ xs) =
    let rest = distinct_after (x ∷ seen) xs in
    let skipped = distinct_after seen xs in if any_where (text_eq x) seen then skipped else x ∷ rest

abbrev pub distinct : List Text → List Text
distinct xs = distinct_after [] xs

-- `if (!prev && next) prev = next`
abbrev pub first_text : Option Text → Option Text → Option Text
first_text none none = none
first_text none (some b) = if is_empty b then none else some b
first_text (some a) none = some a
first_text (some a) (some b) = if is_empty a && not (is_empty b) then some b else some a

-- `{ ...next, ...prev }`: the keys of `next`, with the values of `prev` where it has them, and then
-- the other keys of `prev`.
abbrev pub has_key : Text → Text × MetaValue → Bool
has_key key e = text_eq e.0 key

abbrev pub with_values : List (Text × MetaValue) → List (Text × MetaValue) → List (Text × MetaValue)
with_values prev [] = []
with_values prev (e ∷ next) =
    (elim (find (has_key e.0) prev) [ none ↦ e | some old ↦ old ]) ∷ with_values prev next

abbrev pub spread : List (Text × MetaValue) → List (Text × MetaValue) → List (Text × MetaValue)
spread prev next =
    with_values prev next ++ filter_where (λ e. not (any_where (has_key e.0) next)) prev

abbrev pub merge_meta :
    Option (List (Text × MetaValue))
    → Option (List (Text × MetaValue))
    → Option (List (Text × MetaValue))
merge_meta prev none = prev
merge_meta none (some next) = some (spread [] next)
merge_meta (some prev) (some next) = some (spread prev next)

unfoldable pub merge_node : GraphNode → GraphNode → GraphNode
merge_node n prev = record prev {
  weight = prev.weight + n.weight;
  sources = distinct (prev.sources ++ n.sources);
  label = if is_empty prev.label then n.label else prev.label;
  ref = first_text prev.ref n.ref;
  status = first_text prev.status n.status;
  meta = merge_meta prev.meta n.meta;
}

unfoldable pub merge_edge : GraphEdge → GraphEdge → GraphEdge
merge_edge e prev = record prev {
  weight = prev.weight + e.weight;
  sources = distinct (prev.sources ++ e.sources);
}

abbrev pub has_node : Text → GraphNode → Bool
has_node id n = text_eq n.id id

abbrev pub has_edge : Text → GraphEdge → Bool
has_edge id e = text_eq e.id id

-- One round of the loop over the nodes of a delta: a new entry, or a merge into the old one.
unfoldable pub add_node : GraphNode → List GraphNode → List GraphNode
add_node n nodes =
    if any_where (has_node n.id) nodes
    then update_where (has_node n.id) (merge_node n) nodes
    else nodes ++ record n { sources = distinct n.sources } ∷ []

unfoldable pub add_edge : GraphEdge → List GraphEdge → List GraphEdge
add_edge e edges =
    if any_where (has_edge e.id) edges
    then update_where (has_edge e.id) (merge_edge e) edges
    else edges ++ record e { sources = distinct e.sources } ∷ []

unfoldable pub add_nodes : List GraphNode → List GraphNode → List GraphNode
add_nodes [] nodes = nodes
add_nodes (n ∷ ns) nodes = add_nodes ns (add_node n nodes)

unfoldable pub add_edges : List GraphEdge → List GraphEdge → List GraphEdge
add_edges [] edges = edges
add_edges (e ∷ es) edges = add_edges es (add_edge e edges)

unfoldable pub merge_into : List GraphDelta → Graph → Graph
merge_into [] g = g
merge_into (d ∷ ds) g =
    merge_into ds (record { nodes = add_nodes d.nodes g.nodes; edges = add_edges d.edges g.edges })

unfoldable pub merge_deltas : List GraphDelta → Graph
merge_deltas deltas = merge_into deltas (record { nodes = []; edges = [] })

-- `id.split(":")`: the text before the first colon, and the one between it and the next, if any.
abbrev pub before_colon : Text → Text
before_colon [] = []
before_colon (c ∷ s) = if c == 58 then [] else c ∷ before_colon s

abbrev pub after_colon : Text → Option Text
after_colon [] = none
after_colon (c ∷ s) = if c == 58 then some (before_colon s) else after_colon s

-- The kinds whose missing nodes are shown as gaps.
unfoldable pub ghost_kind : Text → Option NodeKind
ghost_kind s =
    if text_eq s (codes "adr")
    then some adr
    else if text_eq s (codes "inv")
    then some inv
    else if text_eq s (codes "fr")
    then some fr
    else if text_eq s (codes "us")
    then some us
    else if text_eq s (codes "nfr")
    then some nfr
    else if text_eq s (codes "req")
    then some req
    else none

abbrev pub ghost : Text → NodeKind → GraphNode
ghost id kind = record {
  id = id;
  kind = kind;
  domain = spec;
  label = elim (after_colon id) [ none ↦ id | some s ↦ s ];
  ref = none;
  status = some (codes "gap");
  weight = 1;
  sources = codes "ghost" ∷ [];
  meta = none;
}

-- The nodes and the gaps while edges are swept.
pub record Swept : Type 0 where
  pub nodes : List GraphNode
  pub gaps : List Text

abbrev pub ghosted : Text → Option NodeKind → Swept → Bool × Swept
ghosted id none s = (false, s)
ghosted id (some kind) s =
    (true, record { nodes = s.nodes ++ ghost id kind ∷ []; gaps = s.gaps ++ id ∷ [] })

-- `ensureGhost`: whether the endpoint is there in the end.
unfoldable pub ensure_ghost : Text → Swept → Bool × Swept
ensure_ghost id s =
    if any_where (has_node id) s.nodes
    then (true, s)
    else ghosted id (ghost_kind (before_colon id)) s

-- The loop over the edges: those that stay, and the nodes and gaps at its end.
unfoldable pub sweep_edges : List GraphEdge → Swept → List GraphEdge × Swept
sweep_edges [] s = ([], s)
sweep_edges (e ∷ es) s =
    let from = ensure_ghost e.from s in
    let to = ensure_ghost e.to from.1 in
    let rest = sweep_edges es to.1 in ((if from.0 && to.0 then e ∷ rest.0 else rest.0), rest.1)

unfoldable pub sweep_dangling : Graph → Graph × List Text
sweep_dangling g =
    let swept = sweep_edges g.edges (record { nodes = g.nodes; gaps = [] }) in
    (record { nodes = swept.1.nodes; edges = swept.0 }, distinct swept.1.gaps)
