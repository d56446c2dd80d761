-- ===== src/ResourceGraph/Tests.antt =====
-- Concrete runs of the resource graph.

use runspace.ResourceGraph.Ui.Props.{
  count, known_ui_component, validate_ui_props, validate_component, require_text,
}
use runspace.Prelude.{
  ℕ, ◌+◌, ◌≡◌, ◌⊎◌, ◌↔◌, refl, String, true, some, List, [], ◌∷◌, is_empty, take,
}
use runspace.Text.{is_blank}
use runspace.Dict
use runspace.Dict.{Dict}
use runspace.Errors.{ok}
use runspace.ResourceGraph.Value.{Value, nil, cons, Fields, end, field, field_of}
use runspace.ResourceGraph.Model.{
  Node, Edge, Query, Authorizer, Service, new, authorize, normalized_limit, matches_node,
  matches_text, clone_metadata,
}
use runspace.ResourceGraph.Service.{
  create_edge, list_nodes, take_matching, create_edge_as, invalid_edge, trimmed_edge,
}
use runspace.ResourceGraph.Service.Listing.{Listed, list_nodes-Listed}
use runspace.ResourceGraph.Service.Edges.{EdgePut, IsAsked, create_edge-EdgePut}
use runspace.ResourceGraph.Calls.{
  Call, put_node, put_edge, project_a_resource, serve_all, Keeps, serve_all-Keeps,
}
use runspace.ResourceGraph.Ui.{
  UiDocument, validate_ui_document, validate_ui_node, is_layout, type_of, validate_children,
}
use runspace.ResourceGraph.Ui.Nesting.{IsUiDocument, validate_ui_document_iff}

abbrev node : String → String → Node
node id workspace_id = record {
  id = id;
  workspace_id = workspace_id;
  kind = "resource";
  type = "git";
  title = "a title";
  summary = "";
  external_ref = "";
  owner_id = "u";
  metadata = Dict.empty;
  created_at = 3;
  updated_at = 3;
}

abbrev edge : String → String → Edge
edge id workspace_id = record {
  id = id;
  workspace_id = workspace_id;
  from_id = "a";
  to_id = "b";
  relation = "uses";
  created_by = "u";
  metadata = Dict.empty;
  created_at = 3;
}

abbrev members : Authorizer ℕ
members = record {
  can_read = λ workspace_id caller_id w. (ok tt, w);
  can_write = λ workspace_id caller_id w. (ok tt, w);
}

abbrev graph : Service ℕ
graph = record (new (some members) (λ w. (w, w + 1)) 7) {
  nodes = Dict.put (Dict.put Dict.empty "a" (node "a" "w")) "b" (node "b" "w");
  edges = Dict.put Dict.empty "e" (edge "e" "other");
}

abbrev calls : List Call
calls =
    put_node "u" (node "a" "v")
    ∷ put_edge "u" (edge "e" "w")
    ∷ put_node "u" (node "b" "w")
    ∷ project_a_resource "r" "w" "u" "git" "a repository" 0
    ∷ []

serve_all-Keeps_example : Keeps graph (serve_all calls graph)
serve_all-Keeps_example = serve_all-Keeps calls graph

-- The edge "e" of the workspace "other" gives way to one of the workspace "w".
abbrev graph_edge : Edge
graph_edge = edge "e" "w"

abbrev with_edge : Service ℕ
with_edge = record graph { edges = Dict.put graph.edges "e" graph_edge }

create_edge-EdgePut_example :
    ((authorize "u" graph_edge.workspace_id true graph).0 ≡ ok tt)
    × EdgePut graph graph_edge with_edge
    × IsAsked graph_edge graph_edge
    × ((is_empty graph_edge.id ≡ true) ⊎ (graph_edge.id ≡ graph_edge.id))
    × (Dict.get with_edge.edges graph_edge.id ≡ some graph_edge)
unfolding create_edge authorize is_blank create_edge_as invalid_edge trimmed_edge Dict.empty
    clone_metadata Dict.put_all
create_edge-EdgePut_example = create_edge-EdgePut "u" graph_edge graph_edge graph with_edge refl

abbrev anything : Query
anything = record { kind = ""; type = ""; text = ""; thread_id = ""; limit = 1 }

list_nodes-Listed_example :
    Listed (λ t. t) "w" anything (Dict.values graph.nodes) (take 1 (Dict.values graph.nodes))
unfolding list_nodes authorize is_blank Dict.values take_matching Dict.put normalized_limit
    matches_node Dict.empty matches_text
list_nodes-Listed_example =
    list_nodes-Listed (λ nodes. nodes) (λ nodes n. (λ h. h, λ h. h)) (λ t. t) "u" "w" anything graph
      graph (take 1 (Dict.values graph.nodes)) refl refl

abbrev text_node : Fields
text_node =
    field "type" (Value.text "Markdown")
      (field "props" (Value.object (field "content" (Value.text "hello") end)) end)

abbrev document : UiDocument
document = record {
  version = "runspace.ui/v1";
  title = "a report";
  layout = some (
      field "type" (Value.text "Stack") (
        field "children"
          (Value.array (cons (Value.object text_node) (cons (Value.object text_node) nil))) end));
}

document-passes : validate_ui_document (λ props. 21) document ≡ ok tt
unfolding validate_ui_document is_blank validate_ui_node is_layout type_of field_of count
    validate_children known_ui_component validate_ui_props validate_component require_text
document-passes = refl

validate_ui_document_iff_example :
    (validate_ui_document (λ props. 21) document ≡ ok tt) ↔ IsUiDocument (λ props. 21) document
validate_ui_document_iff_example = validate_ui_document_iff (λ props. 21) document
