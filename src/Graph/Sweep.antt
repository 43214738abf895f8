-- ===== src/Graph/Sweep.antt =====
-- What `sweepDangling` of src/graph-model.ts leaves.
use mazzy_command_center.Graph.{
  before_colon, ghost, ghost_kind, GraphEdge, Graph, ghosted, has_node, ensure_ghost, sweep_edges,
  GraphNode, Swept, sweep_dangling, NodeKind,
}
use mazzy_command_center.Prelude.{
  Bool, true, List, [], ◌∷◌, ◌++◌, Option, none, some, ◌≡◌, inl, inr, refl, arith, Text, Bool-cases,
  ◌&&◌, any_where, all_where, text_eq_refl,
}

any_where_append {ℓ} :
    {A : Type ℓ} (p : A → Bool) (xs ys : List A)
    → any_where p xs ≡ true
    → any_where p (xs ++ ys) ≡ true
unfolding any_where
any_where_append p [] ys h = cc
any_where_append p (x ∷ xs) ys h = ground (arith, any_where_append p xs ys)

any_where_last {ℓ} :
    {A : Type ℓ} (p : A → Bool) (xs : List A) (x : A)
    → p x ≡ true
    → any_where p (xs ++ x ∷ []) ≡ true
unfolding any_where
any_where_last p [] x h = ground arith
any_where_last p (y ∷ xs) x h = ground (arith, any_where_last p xs x)

-- A node that is there stays there.
ghosted-keeps :
    (id : Text) (kind : Option NodeKind) (s : Swept) (other : Text)
    → any_where (has_node other) s.nodes ≡ true
    → any_where (has_node other) (ghosted id kind s).1.nodes ≡ true
ghosted-keeps id none s other h = h
ghosted-keeps id (some kind) s other h = any_where_append (has_node other) s.nodes _ h

ensure_ghost-keeps :
    (id : Text) (s : Swept) (other : Text)
    → any_where (has_node other) s.nodes ≡ true
    → any_where (has_node other) (ensure_ghost id s).1.nodes ≡ true
unfolding ensure_ghost any_where
ensure_ghost-keeps id s other h = elim (Bool-cases (any_where (has_node id) s.nodes)) [
  | inl there ↦ rw (ensure_ghost, there) h
  | inr missing ↦
      rw (ensure_ghost, missing) (ghosted-keeps id (ghost_kind (before_colon id)) s other h)
]

sweep_edges-keeps :
    (es : List GraphEdge) (s : Swept) (other : Text)
    → any_where (has_node other) s.nodes ≡ true
    → any_where (has_node other) (sweep_edges es s).1.nodes ≡ true
unfolding sweep_edges
sweep_edges-keeps [] s other h = h
sweep_edges-keeps (e ∷ es) s other h =
    sweep_edges-keeps es _ other
      (ensure_ghost-keeps e.to _ other (ensure_ghost-keeps e.from s other h))

-- An endpoint that is accepted is there.
ghosted-there :
    (id : Text) (kind : Option NodeKind) (s : Swept)
    → (ghosted id kind s).0 ≡ true
    → any_where (has_node id) (ghosted id kind s).1.nodes ≡ true
ghosted-there id none s h = cc
ghosted-there id (some kind) s h =
    any_where_last (has_node id) s.nodes (ghost id kind) (text_eq_refl id)

ensure_ghost-there :
    (id : Text) (s : Swept)
    → (ensure_ghost id s).0 ≡ true
    → any_where (has_node id) (ensure_ghost id s).1.nodes ≡ true
unfolding ensure_ghost any_where
ensure_ghost-there id s h = elim (Bool-cases (any_where (has_node id) s.nodes)) [
  | inl there ↦ rw (ensure_ghost, there) there
  | inr missing ↦
      rw (ensure_ghost, missing)
        (ghosted-there id (ghost_kind (before_colon id)) s (rw (ensure_ghost, missing) at h))
]

-- Both endpoints of an edge are nodes of the graph.
abbrev pub is_anchored : List GraphNode → GraphEdge → Bool
is_anchored nodes e = any_where (has_node e.from) nodes && any_where (has_node e.to) nodes

sweep_edges-anchored :
    (es : List GraphEdge) (s : Swept)
    → all_where (is_anchored (sweep_edges es s).1.nodes) (sweep_edges es s).0 ≡ true
unfolding sweep_edges all_where
sweep_edges-anchored [] s = refl
sweep_edges-anchored (e ∷ es) s =
    let from = ensure_ghost e.from s in
    let to = ensure_ghost e.to from.1 in
    let rest = sweep_edges-anchored es to.1 in
    elim (Bool-cases (from.0 && to.0)) [
      | inr dropped ↦ rw dropped rest
      | inl both ↦
          let here : any_where (has_node e.from) (sweep_edges es to.1).1.nodes ≡ true =
            sweep_edges-keeps es to.1 e.from (
              ensure_ghost-keeps e.to from.1 e.from (ensure_ghost-there e.from s (ground arith))) in
          let there : any_where (has_node e.to) (sweep_edges es to.1).1.nodes ≡ true =
            sweep_edges-keeps es to.1 e.to (ensure_ghost-there e.to from.1 (ground arith)) in
          rw both (ground (arith, rest, here, there))
    ]

-- After the sweep both endpoints of every edge are nodes of the graph, and every node that was
-- in the graph is still in it.
pub sweep_dangling-anchored :
    (g : Graph)
    → (all_where (is_anchored (sweep_dangling g).0.nodes) (sweep_dangling g).0.edges ≡ true)
      × ((id : Text)
          → any_where (has_node id) g.nodes ≡ true
          → any_where (has_node id) (sweep_dangling g).0.nodes ≡ true)
unfolding sweep_dangling
sweep_dangling-anchored g =
    (sweep_edges-anchored g.edges _, λ id h. sweep_edges-keeps g.edges _ id h)
