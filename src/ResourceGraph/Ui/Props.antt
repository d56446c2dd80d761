-- ===== src/ResourceGraph/Ui/Props.antt =====
-- internal/resourcegraph/ui_schema.go: the checks of a component's properties. `encoded_size` is the
-- length of encoding/json's text of them.
use Prim.Native.String
use runspace.Prelude.{
  ℕ, ◌+◌, String, Bool, true, false, not, ◌||◌, Option, none, some, List, [], ◌∷◌, ltb, ◌==◌,
  some_of, if◌then◌else◌,
}
use runspace.Text.{is_blank}
use runspace.Errors.{Result, ok, err, message, graph_invalid, ◌>>◌}
use runspace.ResourceGraph.Value.{Values, nil, cons, Fields, field_of, as_text, as_array, or_empty}

-- The names of uiComponents.
abbrev ui_components : List String
ui_components =
    "Markdown" ∷ "CodeReference" ∷ "DiffViewer" ∷ "TaskCard" ∷ "TestReport" ∷ "Timeline"
    ∷ "DataTable" ∷ "MetricGroup" ∷ "ApprovalRequest" ∷ "D3Artifact" ∷ []

unfoldable pub known_ui_component : String → Bool
known_ui_component name = some_of (λ component. component == name) ui_components

unfoldable pub count : Values → ℕ
count nil = 0
count (cons v vs) = count vs + 1

abbrev pub invalid_if : Bool → Result (Unit {0})
invalid_if true = err graph_invalid
invalid_if false = ok tt

text_fails : Option String → ℕ → Bool
text_fails none limit = true
text_fails (some value) limit = is_blank value || ltb limit (String.len value)

unfoldable pub require_text : Fields → String → ℕ → Result (Unit {0})
unfolding text_fails
require_text props key limit = invalid_if (text_fails (as_text (field_of props key)) limit)

unfoldable pub require_texts : Fields → List String → ℕ → Result (Unit {0})
require_texts props [] limit = ok tt
require_texts props (key ∷ keys) limit =
    require_text props key limit >> require_texts props keys limit

array_fails : Option Values → ℕ → Bool
array_fails none limit = true
array_fails (some value) limit = ltb limit (count value)

unfoldable pub bounded_array : Fields → String → ℕ → Result (Unit {0})
unfolding array_fails
bounded_array props key limit = invalid_if (array_fails (as_array (field_of props key)) limit)

-- The cases of the switch.
unfoldable pub validate_component : String → Fields → Result (Unit {0})
validate_component component props =
    if component == "Markdown"
    then require_text props "content" 20000
    else if component == "CodeReference"
    then require_texts props ("resource" ∷ "path" ∷ []) 500
    else if component == "DiffViewer" || component == "TestReport"
    then require_text props "resource" 500
    else if component == "TaskCard"
    then require_texts props ("title" ∷ "status" ∷ []) 500
    else if component == "Timeline"
    then bounded_array props "items" 50
    else if component == "MetricGroup"
    then bounded_array props "items" 12
    else if component == "DataTable"
    then bounded_array props "columns" 12 >> bounded_array props "rows" 100
    else if component == "ApprovalRequest"
    then require_texts props ("title" ∷ "operation" ∷ "resource" ∷ []) 500
    else if component == "D3Artifact"
    then require_text props "kind" 80
      >> invalid_if (not (or_empty (as_text (field_of props "kind")) == "dependency_graph"))
      >> bounded_array props "nodes" 100
      >> bounded_array props "edges" 200
    else err graph_invalid

unfoldable pub validate_ui_props : (Fields → ℕ) → String → Fields → Result (Unit {0})
validate_ui_props encoded_size component props =
    if ltb 65536 (encoded_size props)
    then err (message "UI component properties exceed 64 KiB")
    else validate_component component props
