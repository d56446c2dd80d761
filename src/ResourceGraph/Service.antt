-- ===== src/ResourceGraph/Service.antt =====
-- internal/resourcegraph/service.go: the operations of the graph.
pub mod Matching
pub mod Listing
pub mod Nodes
pub mod Edges
use runspace.Prelude.{
  ℕ, zero, suc, String, Bool, true, false, not, ◌&&◌, ◌||◌, Option, none, some, List, [], ◌∷◌,
  is_empty, eqb, ◌==◌, select, if◌then◌else◌,
}
use runspace.Text.{trim_space}
use runspace.Dict
use runspace.Dict.{Dict}
use runspace.Errors.{graph_invalid, graph_not_found}
use runspace.Exec.{Exec, pure, gets, modify, or_fail, fail_if, ◌>>=◌, ◌>>◌}
use runspace.ResourceGraph.Model.{
  Node, Edge, Query, Context, Store, Service, normalize_node, valid_node, normalized_limit,
  clone_metadata, matches_node, call, read_clock, authorize, edge_id,
}

-- `exists && existing.WorkspaceID != node.WorkspaceID`
abbrev pub foreign : Option Node → Node → Bool
foreign none n = false
foreign (some existing) n = not (existing.workspace_id == n.workspace_id)

abbrev pub created_at_of : Option Node → ℕ → ℕ → ℕ
created_at_of (some existing) given now = existing.created_at
created_at_of none given now = if eqb given 0 then now else given

-- The node that is stored for a normalized one.
unfoldable pub stamped : Option Node → String → ℕ → Node → Node
stamped existing caller_id now n = record n {
  created_at = created_at_of existing n.created_at now;
  owner_id = if is_empty n.owner_id then caller_id else n.owner_id;
  updated_at = now;
  metadata = clone_metadata n.metadata;
}

unfoldable pub trimmed_edge : Edge → Edge
trimmed_edge e = record e {
  workspace_id = trim_space e.workspace_id;
  from_id = trim_space e.from_id;
  to_id = trim_space e.to_id;
  relation = trim_space e.relation;
}

unfoldable pub invalid_edge : Edge → Bool
invalid_edge e =
    is_empty e.workspace_id
    || is_empty e.from_id
    || is_empty e.to_id
    || is_empty e.relation
    || e.from_id == e.to_id

abbrev pub or_given : String → String → String
or_given given default = if is_empty given then default else given

-- for _, node := range s.nodes { if matches { append; if len == limit { break } } }
unfoldable pub take_matching : (Node → Bool) → ℕ → List Node → List Node
take_matching p zero nodes = []
take_matching p (suc limit) [] = []
take_matching p (suc limit) (n ∷ nodes) =
    let kept = n ∷ take_matching p limit nodes in
    let skipped = take_matching p (suc limit) nodes in if p n then kept else skipped

unfoldable pub touches : String → String → Edge → Bool
touches workspace_id node_id e =
    (e.workspace_id == workspace_id) && (e.from_id == node_id || e.to_id == node_id)

abbrev pub context_of : Node → String → List Edge → Context
context_of node node_id edges = record {
  node = node;
  incoming = select (λ e. not (e.from_id == node_id)) edges;
  outgoing = select (λ e. e.from_id == node_id) edges;
}

module _ {W : Type 0} where
  save_node : Node → Option (Store W) → Exec (Service W) (Unit {0})
  save_node n none = pure tt
  save_node n (some store) = call (store.upsert_graph_node n)

  save_edge : Edge → Option (Store W) → Exec (Service W) (Unit {0})
  save_edge e none = pure tt
  save_edge e (some store) = call (store.create_graph_edge e)

  unfoldable pub upsert : String → Node → Exec (Service W) Node
  unfolding save_node
  upsert caller_id given = do
    let node = normalize_node given
    fail_if (not (valid_node node)) graph_invalid
    now ← read_clock
    existing ← gets (λ s. Dict.get s.nodes node.id)
    fail_if (foreign existing node) graph_invalid
    let stored = stamped existing caller_id now node
    modify (λ s. record s { nodes = Dict.put s.nodes stored.id stored })
    store ← gets (λ s. s.store)
    save_node stored store
    pure stored

  unfoldable pub upsert_node : String → Node → Exec (Service W) Node
  upsert_node caller_id node = do authorize caller_id node.workspace_id true; upsert caller_id node

  named_edge : Edge → Exec (Service W) String
  named_edge edge = if is_empty edge.id then edge_id edge else pure edge.id

  -- if edge.CreatedAt.IsZero() { … s.now() }
  edge_time : Edge → Exec (Service W) ℕ
  edge_time edge = if eqb edge.created_at 0 then read_clock else pure edge.created_at

  unfoldable pub create_edge_as : String → Edge → Exec (Service W) Edge
  unfolding save_edge named_edge edge_time
  create_edge_as caller_id given = do
    let edge = trimmed_edge given
    fail_if (invalid_edge edge) graph_invalid
    id ← named_edge edge
    created_at ← edge_time edge
    let stored : Edge = record edge {
      id = id;
      created_by = or_given edge.created_by caller_id;
      created_at = created_at;
      metadata = clone_metadata edge.metadata;
    }
    modify (λ s. record s { edges = Dict.put s.edges stored.id stored })
    store ← gets (λ s. s.store)
    save_edge stored store
    pure stored

  unfoldable pub create_edge : String → Edge → Exec (Service W) Edge
  create_edge caller_id edge = do
    authorize caller_id edge.workspace_id true
    create_edge_as caller_id edge

  -- `order` is that in which Go goes over the map, which it leaves open.
  nodes_from :
      (List Node → List Node)
      → (String → String)
      → String
      → Query
      → Option (Store W)
      → Exec (Service W) (List Node)
  nodes_from order lower workspace_id query (some store) =
      call (store.list_graph_nodes workspace_id query)
  nodes_from order lower workspace_id query none = gets (λ s.
      take_matching (λ n. matches_node lower n workspace_id query) query.limit
        (order (Dict.values s.nodes)))

  unfoldable pub list_nodes :
      (List Node → List Node)
      → (String → String)
      → String
      → String
      → Query
      → Exec (Service W) (List Node)
  unfolding nodes_from
  list_nodes order lower caller_id workspace_id query = do
    authorize caller_id workspace_id false
    store ← gets (λ s. s.store)
    nodes_from order lower workspace_id (record query { limit = normalized_limit query.limit })
        store

  node_from : String → String → Option (Store W) → Exec (Service W) Node
  node_from workspace_id node_id (some store) = call (store.get_graph_node workspace_id node_id)
  node_from workspace_id node_id none = do
    found ← gets (λ s. Dict.get s.nodes node_id)
    node ← or_fail found graph_not_found
    fail_if (not (node.workspace_id == workspace_id)) graph_not_found
    pure node

  unfoldable pub get_node : String → String → Exec (Service W) Node
  unfolding node_from
  get_node workspace_id node_id = do
    store ← gets (λ s. s.store)
    node_from workspace_id node_id store

  edges_from : String → String → Option (Store W) → Exec (Service W) (List Edge)
  edges_from workspace_id node_id (some store) = call (store.list_graph_edges workspace_id node_id)
  edges_from workspace_id node_id none =
      gets (λ s. select (touches workspace_id node_id) (Dict.values s.edges))

  unfoldable pub list_edges : String → String → Exec (Service W) (List Edge)
  unfolding edges_from
  list_edges workspace_id node_id = do
    store ← gets (λ s. s.store)
    edges_from workspace_id node_id store

  unfoldable pub get_context : String → String → String → Exec (Service W) Context
  get_context caller_id workspace_id node_id = do
    authorize caller_id workspace_id false
    node ← get_node workspace_id node_id
    edges ← list_edges workspace_id node_id
    pure (context_of node node_id edges)
