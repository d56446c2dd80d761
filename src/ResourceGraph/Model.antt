-- ===== src/ResourceGraph/Model.antt =====
-- internal/resourcegraph/models.go and service.go: the data, the state, and the parts that the
-- operations share. `W` is the state of all that lies outside.
use Prim.Native.String
use runspace.Prelude.{
  ℕ, ◌+◌, ◌%◌, String, Bool, true, false, not, ◌&&◌, ◌||◌, Option, none, some, List, [], ◌∷◌,
  is_empty, ltb, ◌==◌, some_of, if◌then◌else◌,
}
use runspace.Text.{trim_space, is_blank, has_prefix}
use runspace.Text.Decimal.{decimal}
use runspace.Dict
use runspace.Dict.{Dict}
use runspace.Errors.{Result, ok, err, join, graph_unauthorized, graph_forbidden, graph_invalid}
use runspace.Exec.{Exec, pure, gets, modify, fail_if, ◌>>=◌, ◌>>◌}
use runspace.ResourceGraph.Value.{Value, as_text, or_empty}

-- A Kind is a text, as in the source. A time of 0 is the zero time; a nil map reads as an empty one.
pub record Node : Type 0 where
  pub id : String
  pub workspace_id : String
  pub kind : String
  pub type : String
  pub title : String
  pub summary : String
  pub external_ref : String
  pub owner_id : String
  pub metadata : Dict Value
  pub created_at : ℕ
  pub updated_at : ℕ

pub record Edge : Type 0 where
  pub id : String
  pub workspace_id : String
  pub from_id : String
  pub to_id : String
  pub relation : String
  pub created_by : String
  pub metadata : Dict Value
  pub created_at : ℕ

-- A negative limit reads as 0, which the code treats alike.
pub record Query : Type 0 where
  pub kind : String
  pub type : String
  pub text : String
  pub thread_id : String
  pub limit : ℕ

pub record Context : Type 0 where
  pub node : Node
  pub incoming : List Edge
  pub outgoing : List Edge

pub record Authorizer (W : Type 0) : Type 0 where
  pub can_read : String → String → Exec W (Unit {0})
  pub can_write : String → String → Exec W (Unit {0})

pub record Store (W : Type 0) : Type 0 where
  pub upsert_graph_node : Node → Exec W (Unit {0})
  pub create_graph_edge : Edge → Exec W (Unit {0})
  pub list_graph_nodes : String → Query → Exec W (List Node)
  pub get_graph_node : String → String → Exec W Node
  pub list_graph_edges : String → String → Exec W (List Edge)

pub record Service (W : Type 0) : Type 0 where
  pub nodes : Dict Node
  pub edges : Dict Edge
  pub authorizer : Option (Authorizer W)
  pub store : Option (Store W)
  pub now : W → ℕ × W
  pub sequence : ℕ
  pub world : W

unfoldable pub normalize_node : Node → Node
normalize_node n = record n {
  id = trim_space n.id;
  workspace_id = trim_space n.workspace_id;
  type = trim_space n.type;
  title = trim_space n.title;
  summary = trim_space n.summary;
  external_ref = trim_space n.external_ref;
  owner_id = trim_space n.owner_id;
}

abbrev kinds : List String
kinds =
    "resource" ∷ "task" ∷ "artifact" ∷ "action" ∷ "discussion" ∷ "identity" ∷ "policy" ∷ "event"
    ∷ []

unfoldable pub valid_kind : String → Bool
valid_kind kind = some_of (λ k. k == kind) kinds

unfoldable pub valid_node : Node → Bool
valid_node n =
    not (is_empty n.id)
    && not (is_empty n.workspace_id)
    && valid_kind n.kind
    && not (is_empty n.type)
    && not (is_empty n.title)

unfoldable pub normalized_limit : ℕ → ℕ
normalized_limit limit = if ltb limit 1 then 50 else if ltb 200 limit then 200 else limit

unfoldable pub metadata_string : Dict Value → String → String
metadata_string metadata key = or_empty (as_text (Dict.get metadata key))

unfoldable pub clone_metadata : Dict Value → Dict Value
clone_metadata input = Dict.put_all Dict.empty input

-- strings.Contains
unfoldable pub contains_text : String → String → Bool
contains_text String.[] t = is_empty t
contains_text (String.◌∷◌ c s) t = has_prefix (String.◌∷◌ c s) t || contains_text s t

-- `lower` is strings.ToLower, which goes by the tables of Unicode.
unfoldable pub matches_text : (String → String) → Node → String → Bool
matches_text lower n query =
    let text = lower (trim_space query) in
    is_empty text || contains_text (lower (String.◌++◌ n.title (String.◌++◌ " " n.summary))) text

unfoldable pub matches_node : (String → String) → Node → String → Query → Bool
matches_node lower n workspace_id query =
    (n.workspace_id == workspace_id)
    && (is_empty query.kind || n.kind == query.kind)
    && (is_empty query.type || n.type == query.type)
    && (is_empty query.thread_id || metadata_string n.metadata "thread_id" == query.thread_id)
    && matches_text lower n query.text

abbrev pub forbid : Result (Unit {0}) → Result (Unit {0})
forbid (ok a) = ok a
forbid (err e) = err (join graph_forbidden e)

module _ {W : Type 0} where
  abbrev pub new : Option (Authorizer W) → (W → ℕ × W) → W → Service W
  new authorizer now world = record {
    nodes = Dict.empty;
    edges = Dict.empty;
    authorizer = authorizer;
    store = none;
    now = now;
    sequence = 0;
    world = world;
  }

  abbrev pub set_store : Option (Store W) → Service W → Service W
  set_store store s = record s { store = store }

  -- A call of something outside.
  abbrev pub call : {A : Type 0} → Exec W A → Exec (Service W) A
  call m s = let (r, w) = m s.world in (r, record s { world = w })

  abbrev pub read_clock : Exec (Service W) ℕ
  read_clock s = let (t, w) = s.now s.world in (ok t, record s { world = w })

  unfoldable pub asked :
      Bool → Option (Authorizer W) → String → String → Exec (Service W) (Unit {0})
  asked write none workspace_id caller_id s = (err graph_invalid, s)
  asked true (some a) workspace_id caller_id s =
      let (r, w) = a.can_write workspace_id caller_id s.world in (forbid r, record s { world = w })
  asked false (some a) workspace_id caller_id s =
      let (r, w) = a.can_read workspace_id caller_id s.world in (forbid r, record s { world = w })

  unfoldable pub authorize : String → String → Bool → Exec (Service W) (Unit {0})
  unfolding asked
  authorize caller_id workspace_id write = do
    fail_if (is_blank caller_id) graph_unauthorized
    fail_if (is_blank workspace_id) graph_invalid
    authorizer ← gets (λ s. s.authorizer)
    asked write authorizer workspace_id caller_id

  -- The sequence is a uint64 that wraps.
  unfoldable pub edge_id : Edge → Exec (Service W) String
  edge_id edge = do
    modify (λ s. record s { sequence = (s.sequence + 1) % 18446744073709551616 })
    n ← gets (λ s. s.sequence)
    pure (String.◌++◌ "edge:" (String.◌++◌ edge.relation (String.◌++◌ ":" (decimal n))))
