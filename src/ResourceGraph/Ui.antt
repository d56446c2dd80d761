-- ===== src/ResourceGraph/Ui.antt =====
-- internal/resourcegraph/ui_schema.go: the checks of a UI document.
pub mod Props
pub mod Shape
pub mod Nesting
use Prim.Native.String
use runspace.Prelude.{
  ℕ, zero, suc, ◌+◌, String, Bool, true, false, not, ◌&&◌, ◌||◌, Option, none, some, List, [], ◌∷◌,
  is_empty, eqb, ltb, ◌==◌, some_of, if◌then◌else◌,
}
use runspace.Text.{is_blank}
use runspace.Errors.{Result, ok, err, message, join, graph_invalid}
use runspace.Exec.{Exec, pure, fail, lift, fail_if, ◌>>◌}
use Props.{known_ui_component, count, validate_ui_props}
use runspace.ResourceGraph.Value.{
  Value, Values, nil, cons, Fields, field_of, as_text, as_array, as_object, or_empty,
}

-- A layout of none is a nil map.
pub record UiDocument : Type 0 where
  pub version : String
  pub title : String
  pub layout : Option Fields

unfoldable pub is_layout : String → Bool
is_layout type = type == "Stack" || type == "Grid"

unfoldable pub type_of : Fields → String
type_of node = or_empty (as_text (field_of node "type"))

-- A component: its properties and its name are checked.
abbrev pub validate_leaf : (Fields → ℕ) → String → Option Fields → Exec ℕ (Unit {0})
validate_leaf encoded_size type none = fail (join graph_invalid (message "unknown UI component"))
validate_leaf encoded_size type (some props) =
    fail_if (not (known_ui_component type)) (join graph_invalid (message "unknown UI component"))
    >> lift (validate_ui_props encoded_size type props)

abbrev pub visit_child : (Fields → Exec ℕ (Unit {0})) → Option Fields → Exec ℕ (Unit {0})
visit_child visit none = fail graph_invalid
visit_child visit (some item) = visit item

-- for _, child := range children { … }
unfoldable pub validate_children : (Fields → Exec ℕ (Unit {0})) → Values → Exec ℕ (Unit {0})
validate_children visit nil = pure tt
validate_children visit (cons child children) =
    visit_child visit (as_object (some child)) >> validate_children visit children

abbrev pub validate_group : (Fields → Exec ℕ (Unit {0})) → Option Values → Exec ℕ (Unit {0})
validate_group visit none = fail graph_invalid
validate_group visit (some children) =
    fail_if (eqb (count children) 0 || ltb 50 (count children)) graph_invalid
    >> validate_children visit children

-- The state is the budget. The depth goes by the levels that are left: a depth d leaves 9 - d of
-- them, and none at a depth above 8.
unfoldable pub validate_ui_node : (Fields → ℕ) → ℕ → Fields → Exec ℕ (Unit {0})
validate_ui_node encoded_size zero node budget =
    fail (message "UI artifact nesting exceeds eight levels") budget
validate_ui_node encoded_size (suc levels) node budget =
    let group =
      validate_group (validate_ui_node encoded_size levels) (as_array (field_of node "children")) in
    let leaf = validate_leaf encoded_size (type_of node) (as_object (field_of node "props")) in
    let rest = if is_layout (type_of node) then group else leaf in
    (fail_if (ltb 100 (budget + 1)) (message "UI artifact exceeds 100 components") >> rest)
      (budget + 1)

abbrev pub validate_layout : (Fields → ℕ) → Option Fields → Result (Unit {0})
validate_layout encoded_size none = err graph_invalid
validate_layout encoded_size (some layout) = (validate_ui_node encoded_size 9 layout 0).0

unfoldable pub validate_ui_document : (Fields → ℕ) → UiDocument → Result (Unit {0})
validate_ui_document encoded_size document =
    if not (document.version == "runspace.ui/v1")
      || is_blank document.title
      || ltb 160 (String.len document.title)
    then err graph_invalid
    else validate_layout encoded_size document.layout
