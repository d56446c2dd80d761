-- ===== src/ResourceGraph/Service/Edges.antt =====
-- internal/resourcegraph/service.go: what making an edge leaves behind, and the context of a node.
use runspace.Prelude.{
  ◌≡◌, refl, sym, ap, ◌∙◌, ◌⊎◌, inl, inr, subst, String, Bool, true, false, Option, none, some,
  is_empty, eqb, eq_refl, Bool-cases, if◌then◌else◌, arith, eq_iff,
}
use runspace.Text.{trim_space}
use runspace.Dict
use runspace.Dict.{Dict, get-put}
use runspace.Errors.{Error, ok, graph_invalid}
use runspace.Exec.{pure, fail_if, bind-ok, ◌>>◌, bind-within, Exec, ◌>>=◌, fail_if-ok}
use runspace.ResourceGraph.Model.{Edge, Store, Service, authorize, edge_id, clone_metadata}
use runspace.ResourceGraph.Service.{
  trimmed_edge, invalid_edge, save_edge, named_edge, edge_time, create_edge_as, create_edge,
  or_given,
}
use runspace.ResourceGraph.Service.Nodes.{IsSame, unchanged, IsSame-trans, authorize-IsSame}

-- An edge between two nodes, with all its parts.
pub record IsValid (e : Edge) : Type 0 where
  pub in_workspace : ¬ (e.workspace_id ≡ "")
  pub has_from : ¬ (e.from_id ≡ "")
  pub has_to : ¬ (e.to_id ≡ "")
  pub related : ¬ (e.relation ≡ "")
  pub no_loop : ¬ (e.from_id ≡ e.to_id)

-- The workspace, the ends and the relation are those that were asked for, trimmed.
pub record IsAsked (given e : Edge) : Type 0 where
  pub workspace : e.workspace_id ≡ trim_space given.workspace_id
  pub from_end : e.from_id ≡ trim_space given.from_id
  pub to_end : e.to_id ≡ trim_space given.to_id
  pub relation : e.relation ≡ trim_space given.relation

not_blank : (x : String) → is_empty x ≡ false → ¬ (x ≡ "")
not_blank x h e = absurd (grind (arith, ap is_empty e))

invalid_edge-IsValid : (e : Edge) → invalid_edge e ≡ false → IsValid e
unfolding invalid_edge
invalid_edge-IsValid e h = record {
  in_workspace = not_blank e.workspace_id (ground arith);
  has_from = not_blank e.from_id (ground arith);
  has_to = not_blank e.to_id (ground arith);
  related = not_blank e.relation (ground arith);
  no_loop = λ same. absurd (grind (arith, (eq_iff e.from_id e.to_id).1 same));
}

module _ {W : Type 0} where
  pub record EdgePut (s : Service W) (e : Edge) (t : Service W) : Type 0 where
    pub edges : t.edges ≡ Dict.put s.edges e.id e
    pub nodes : t.nodes ≡ s.nodes
    pub store : t.store ≡ s.store
    pub valid : IsValid e

  named_edge-IsSame : (e : Edge) (s : Service W) → IsSame s (named_edge e s).1
  unfolding named_edge edge_id
  named_edge-IsSame e s = elim (Bool-cases (is_empty e.id)) [
    | inl blank ↦ rw blank (record { nodes = refl; edges = refl; store = refl })
    | inr named ↦ rw named (unchanged s)
  ]

  edge_time-IsSame : (e : Edge) (s : Service W) → IsSame s (edge_time e s).1
  unfolding edge_time
  edge_time-IsSame e s = elim (Bool-cases (eqb e.created_at 0)) [
    | inl zero' ↦ rw zero' (record { nodes = refl; edges = refl; store = refl })
    | inr given ↦ rw given (unchanged s)
  ]

  save_edge-IsSame :
      (e : Edge) (store : Option (Store W)) (s : Service W) → IsSame s (save_edge e store s).1
  unfolding save_edge
  save_edge-IsSame e none s = unchanged s
  save_edge-IsSame e (some store) s = record { nodes = refl; edges = refl; store = refl }

  named_edge-id :
      (e : Edge) (s t : Service W) (id : String)
      → named_edge e s ≡ (ok id, t)
      → (is_empty e.id ≡ true) ⊎ (id ≡ e.id)
  unfolding named_edge
  named_edge-id e s t id h = elim (Bool-cases (is_empty e.id)) [
    | inl blank ↦ inl blank
    | inr named ↦
        let given : e.id ≡ id = cc (
          ap (λ p. p.0)
            (subst (λ b. (if b then edge_id e else pure e.id) s ≡ (ok id, t)) named h)) in
        inr (sym given)
  ]

  -- What the rest of the making does, the id and the time given.
  stored-EdgePut :
      (stored e : Edge) (s w t : Service W)
      → invalid_edge stored ≡ false
      → IsSame s w
      → (save_edge stored w.store >> pure stored)
          (record w { edges = Dict.put w.edges stored.id stored })
        ≡ (ok e, t)
      → EdgePut s e t × (stored ≡ e)
  stored-EdgePut stored e s w t valid same h =
      let put : Service W = record w { edges = Dict.put w.edges stored.id stored } in
      let (_, x, e4, h4) = bind-ok (save_edge stored w.store) _ put t e h in
      let given_back : stored ≡ e = cc (ap (λ p. p.0) h4) in
      let last : x ≡ t = ap (λ p. p.1) h4 in
      let saved : IsSame put t =
        subst (IsSame put) (ap (λ p. p.1) e4 ∙ last) (save_edge-IsSame stored w.store put) in
      (
        subst (λ a. EdgePut s a t) given_back
            (record {
              edges = saved.edges ∙ ap (λ d. Dict.put d stored.id stored) same.edges;
              nodes = saved.nodes ∙ same.nodes;
              store = saved.store ∙ same.store;
              valid = invalid_edge-IsValid stored valid;
            }),
        given_back,
      )

  create_edge_as-EdgePut :
      (caller_id : String) (given e : Edge) (s t : Service W)
      → create_edge_as caller_id given s ≡ (ok e, t)
      → EdgePut s e t × IsAsked given e × ((is_empty given.id ≡ true) ⊎ (e.id ≡ given.id))
  unfolding create_edge_as trimmed_edge invalid_edge
  create_edge_as-EdgePut caller_id given e s t h =
      let edge = trimmed_edge given in
      let (_, u, e1, h1) = bind-ok (fail_if (invalid_edge edge) graph_invalid) _ s t e h in
      let (valid, same) = fail_if-ok (invalid_edge edge) graph_invalid s u e1 in
      let (id, v, e2, h2) = bind-ok (named_edge edge) _ u t e h1 in
      let (at, w, e3, h3) = bind-ok (edge_time edge) _ v t e h2 in
      let stored : Edge = record edge {
        id = id;
        created_by = or_given edge.created_by caller_id;
        created_at = at;
        metadata = clone_metadata edge.metadata;
      } in
      let at_v : IsSame u v = subst (IsSame u) (ap (λ p. p.1) e2) (named_edge-IsSame edge u) in
      let at_w : IsSame v w = subst (IsSame v) (ap (λ p. p.1) e3) (edge_time-IsSame edge v) in
      let (put, back) =
        stored-EdgePut stored e s w t valid (subst (λ a. IsSame a w) same (IsSame-trans at_v at_w))
          h3 in
      (
        put,
        record {
          workspace = sym (ap (λ a. a.workspace_id) back);
          from_end = sym (ap (λ a. a.from_id) back);
          to_end = sym (ap (λ a. a.to_id) back);
          relation = sym (ap (λ a. a.relation) back);
        },
        elim (named_edge-id edge u v id e2) [
          | inl blank ↦ inl blank
          | inr named ↦ inr (sym (ap (λ a. a.id) back) ∙ named)
        ],
      )

  -- An edge that is made has the workspace, the ends and the relation that were asked for, trimmed,
  -- none of them empty and the ends not the same, and the id that was given, if one was. The writer
  -- was permitted in the workspace. Nodes and the durable store stay, and so do the edges with other
  -- ids. The edge takes the place of whatever stood under its id, an edge of
  -- another workspace included.
  pub create_edge-EdgePut :
      (caller_id : String) (given e : Edge) (s t : Service W)
      → create_edge caller_id given s ≡ (ok e, t)
      → ((authorize caller_id given.workspace_id true s).0 ≡ ok tt)
        × EdgePut s e t
        × IsAsked given e
        × ((is_empty given.id ≡ true) ⊎ (e.id ≡ given.id))
        × (Dict.get t.edges e.id ≡ some e)
  unfolding create_edge
  create_edge-EdgePut caller_id given e s t h =
      let (_, u, e1, h1) = bind-ok (authorize caller_id given.workspace_id true) _ s t e h in
      let same : IsSame s u =
        subst (IsSame s) (ap (λ p. p.1) e1)
          (authorize-IsSame caller_id given.workspace_id true s) in
      let (put, workspace, named) = create_edge_as-EdgePut caller_id given e u t h1 in
      let edges : t.edges ≡ Dict.put s.edges e.id e =
        put.edges ∙ ap (λ d. Dict.put d e.id e) same.edges in
      (
        ap (λ p. p.0) e1,
        record {
          edges = edges;
          nodes = put.nodes ∙ same.nodes;
          store = put.store ∙ same.store;
          valid = put.valid;
        },
        workspace,
        named,
        ap (λ d. Dict.get d e.id) edges ∙ get-put s.edges e.id e.id e ∙ rw (eq_refl e.id) refl,
      )

  -- The nodes after are those before.
  abbrev SameNodes : Service W → Service W → Type 0
  SameNodes s t = t.nodes ≡ s.nodes

  same-nodes :
      {A B : Type 0} (m : Exec (Service W) A) (f : A → Exec (Service W) B)
      → ((s : Service W) → SameNodes s (m s).1)
      → ((a : A) (s : Service W) → SameNodes s (f a s).1)
      → (s : Service W) → SameNodes s ((m >>= f) s).1
  same-nodes m f = bind-within SameNodes m f (λ s t u p q. q ∙ p)

  fail_if-nodes : (b : Bool) (e : Error) (s : Service W) → SameNodes s (fail_if b e s).1
  fail_if-nodes true e s = refl
  fail_if-nodes false e s = refl

  stored-nodes :
      (stored : Edge) (s : Service W)
      → SameNodes s
          ((save_edge stored s.store >> pure stored)
            (record s { edges = Dict.put s.edges stored.id stored })).1
  stored-nodes stored s =
      same-nodes (save_edge stored s.store) (λ _. pure stored)
        (λ t. (save_edge-IsSame stored s.store t).nodes) (λ a t. refl)
        (record s { edges = Dict.put s.edges stored.id stored })

  pub create_edge_as-nodes :
      (caller_id : String) (given : Edge) (s : Service W)
      → (create_edge_as caller_id given s).1.nodes ≡ s.nodes
  unfolding create_edge_as
  create_edge_as-nodes caller_id given =
      let edge = trimmed_edge given in
      same-nodes (fail_if (invalid_edge edge) graph_invalid) _
        (fail_if-nodes (invalid_edge edge) graph_invalid)
        (λ _.
          same-nodes (named_edge edge) _ (λ s. (named_edge-IsSame edge s).nodes)
            (λ id.
              same-nodes (edge_time edge) _ (λ s. (edge_time-IsSame edge s).nodes)
                (λ at s.
                  stored-nodes
                    (record edge {
                      id = id;
                      created_by = or_given edge.created_by caller_id;
                      created_at = at;
                      metadata = clone_metadata edge.metadata;
                    })
                    s)))
