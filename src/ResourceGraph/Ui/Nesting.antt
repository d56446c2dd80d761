-- ===== src/ResourceGraph/Ui/Nesting.antt =====
-- internal/resourcegraph/ui_schema.go: which documents pass, by the number of their nodes.
use Prim.Native.String
use runspace.Prelude.{
  ℕ, zero, suc, ◌+◌, ◌≤◌, ◌<◌, ◌≡◌, ◌↔◌, refl, sym, ap, ◌∙◌, inl, inr, String, Bool, true, false,
  not, ◌||◌, Option, none, some, arith, eqb, ltb, ◌==◌, eq_iff, Bool-cases, if◌then◌else◌, subst,
}
use runspace.Text.{is_blank}
use runspace.Errors.{Error, Result, ok, err, Result-cases, graph_invalid}
use runspace.Exec.{Exec, ◌>>◌}
use runspace.ResourceGraph.Value.{Values, nil, cons, Fields, field_of, as_array, as_object}
use runspace.ResourceGraph.Ui.{
  UiDocument, is_layout, type_of, validate_leaf, visit_child, validate_children, validate_group,
  validate_ui_node, validate_layout, validate_ui_document,
}
use runspace.ResourceGraph.Ui.Shape.{
  leaf_nodes, add, child_nodes, children_nodes, group_nodes, nodes_of, add-some, nodes_of-positive,
}
use runspace.ResourceGraph.Ui.Props.{known_ui_component, count, validate_ui_props}

-- A check of a tree with a budget: it passes where the nodes are counted and there is room for them.
data Outcome (nodes : Option ℕ) (budget : ℕ) (r : Result (Unit {0}) × ℕ) : Type 0 where
  passes :
      (n : ℕ) → nodes ≡ some n → budget + n ≤ 100 → r ≡ (ok tt, budget + n) → Outcome nodes budget r
  fails :
      ((n : ℕ) → nodes ≡ some n → 100 < budget + n)
      → (e : Error) → r.0 ≡ err e
      → Outcome nodes budget r

child-Outcome :
    (visit : Fields → Exec ℕ (Unit {0})) (nodes : Fields → Option ℕ)
    → ((node : Fields) (budget : ℕ) → Outcome (nodes node) budget (visit node budget))
    → (item : Option Fields) (budget : ℕ)
    → Outcome (child_nodes nodes item) budget (visit_child visit item budget)
child-Outcome visit nodes each none budget = fails (λ n h. absurd (cc h)) _ refl
child-Outcome visit nodes each (some item) budget = each item budget

extend-Outcome :
    (n budget : ℕ) (rest : Option ℕ) (r : Result (Unit {0}) × ℕ)
    → Outcome rest (budget + n) r
    → Outcome (add (some n) rest) budget r
extend-Outcome n budget rest r (passes m counted room e) =
    passes (n + m) (ap (add (some n)) counted) (omega (arith, room))
      (e ∙ ap (λ b. (ok tt, b)) (omega arith))
extend-Outcome n budget rest r (fails many e h) =
    fails
      (λ k counted.
        let (x, y, first, second, sum) = add-some (some n) rest k counted in
        let same : n ≡ x = cc first in omega (arith, many y second, sum, same))
      e h

sequence-Outcome :
    (m k : Exec ℕ (Unit {0})) (first rest : Option ℕ) (budget : ℕ)
    → Outcome first budget (m budget)
    → ((b : ℕ) → b ≤ 100 → Outcome rest b (k b))
    → Outcome (add first rest) budget ((m >> k) budget)
sequence-Outcome m k first rest budget (passes n counted room e) next =
    rw (counted, e) (extend-Outcome n budget rest (k (budget + n)) (next (budget + n) room))
sequence-Outcome m k first rest budget (fails many e h) next =
    fails
      (λ n counted.
        let (x, y, one, other, sum) = add-some first rest n counted in
        omega (arith, many x one, sum))
      e (rw h refl)

children-Outcome :
    (visit : Fields → Exec ℕ (Unit {0})) (nodes : Fields → Option ℕ)
    → ((node : Fields) (budget : ℕ) → Outcome (nodes node) budget (visit node budget))
    → (children : Values) (budget : ℕ) → budget ≤ 100
    → Outcome (children_nodes nodes children) budget (validate_children visit children budget)
unfolding children_nodes validate_children
children-Outcome visit nodes each nil budget room =
    passes 0 refl (omega (arith, room)) (ap (λ b. (ok tt, b)) (omega arith))
children-Outcome visit nodes each (cons child children) budget room =
    sequence-Outcome (visit_child visit (as_object (some child))) (validate_children visit children)
      (child_nodes nodes (as_object (some child))) (children_nodes nodes children) budget
      (child-Outcome visit nodes each (as_object (some child)) budget)
      (children-Outcome visit nodes each children)

group-Outcome :
    (visit : Fields → Exec ℕ (Unit {0})) (nodes : Fields → Option ℕ)
    → ((node : Fields) (budget : ℕ) → Outcome (nodes node) budget (visit node budget))
    → (children : Option Values) (budget : ℕ) → budget + 1 ≤ 100
    → Outcome (group_nodes nodes children) budget (validate_group visit children (budget + 1))
group-Outcome visit nodes each none budget room = fails (λ n h. absurd (cc h)) _ refl
group-Outcome visit nodes each (some children) budget room =
    elim (Bool-cases (eqb (count children) 0 || ltb 50 (count children))) [
      | inl bad ↦ rw bad (fails (λ n h. absurd (cc h)) _ refl)
      | inr good ↦ rw good (
          extend-Outcome 1 budget (children_nodes nodes children) _
            (children-Outcome visit nodes each children (budget + 1) room))
    ]

leaf-Outcome :
    (encoded_size : Fields → ℕ) (type : String) (props : Option Fields) (budget : ℕ)
    → budget + 1 ≤ 100
    → Outcome
        (leaf_nodes encoded_size type props)
        budget
        (validate_leaf encoded_size type props (budget + 1))
leaf-Outcome encoded_size type none budget room = fails (λ n h. absurd (cc h)) _ refl
leaf-Outcome encoded_size type (some props) budget room =
    elim (Bool-cases (known_ui_component type)) [
      | inr unknown ↦ rw unknown (fails (λ n h. absurd (cc h)) _ refl)
      | inl known ↦ elim (Result-cases (validate_ui_props encoded_size type props)) [
        | inl (_, good) ↦ rw (known, good) (passes 1 refl room refl)
        | inr (e, bad) ↦ rw (known, bad) (fails (λ n h. absurd (cc h)) e refl)
      ]
    ]

node-Outcome :
    (encoded_size : Fields → ℕ) (levels : ℕ) (node : Fields) (budget : ℕ)
    → Outcome
        (nodes_of encoded_size levels node)
        budget
        (validate_ui_node encoded_size levels node budget)
unfolding nodes_of validate_ui_node
node-Outcome encoded_size zero node budget = fails (λ n h. absurd (cc h)) _ refl
node-Outcome encoded_size (suc levels) node budget = elim (Bool-cases (ltb 100 (budget + 1))) [
  | inl full ↦ rw full (
      fails
        (λ n counted.
          let some' : 1 ≤ n = nodes_of-positive encoded_size (suc levels) node n counted in
          ground (arith, full, some'))
        _ refl)
  | inr room ↦ elim (Bool-cases (is_layout (type_of node))) [
    | inl layout ↦
        rw (room, layout)
          (group-Outcome _ (nodes_of encoded_size levels) (node-Outcome encoded_size levels)
            (as_array (field_of node "children")) budget (ground (arith, room)))
    | inr leaf ↦
        rw (room, leaf)
          (leaf-Outcome encoded_size (type_of node) (as_object (field_of node "props")) budget
            (ground (arith, room)))
  ]
]

abbrev Counted : (Fields → ℕ) → Fields → Type 0
Counted encoded_size l = (n : ℕ) × (nodes_of encoded_size 9 l ≡ some n) × (n ≤ 100)

pub record IsUiDocument (encoded_size : Fields → ℕ) (d : UiDocument) : Type 0 where
  pub version : d.version ≡ "runspace.ui/v1"
  pub titled : is_blank d.title ≡ false
  pub short : String.len d.title ≤ 160
  pub nodes : (layout : Fields) × (d.layout ≡ some layout) × Counted encoded_size layout

Counted-Outcome :
    (encoded_size : Fields → ℕ) (l : Fields) (r : Result (Unit {0}) × ℕ)
    → Outcome (nodes_of encoded_size 9 l) 0 r
    → (r.0 ≡ ok tt) ↔ Counted encoded_size l
Counted-Outcome encoded_size l r (passes n counted room e) =
    (λ h. (n, counted, omega (arith, room)), λ p. ap (λ q. q.0) e)
Counted-Outcome encoded_size l r (fails many e h) = (
  λ g. absurd (cc (h, g)),
  λ p. let over : 100 < 0 + p.0 = many p.0 p.1 in absurd (omega (arith, over, p.2)),
)

layout_iff :
    (encoded_size : Fields → ℕ) (layout : Option Fields)
    → (validate_layout encoded_size layout ≡ ok tt)
      ↔ ((l : Fields) × (layout ≡ some l) × Counted encoded_size l)
layout_iff encoded_size none = (λ h. absurd (cc h), λ p. absurd (cc p.1))
layout_iff encoded_size (some layout) =
    let both =
      Counted-Outcome encoded_size layout (validate_ui_node encoded_size 9 layout 0)
        (node-Outcome encoded_size 9 layout 0) in
    (
      λ h. (layout, refl, both.0 h),
      λ p. both.1 (let same : layout ≡ p.0 = cc p.1 in subst (Counted encoded_size) (sym same) p.2),
    )

-- A document passes exactly where its version is the known one, its title is there and at most 160
-- bytes long, and its layout is a tree of at most nine levels whose groups have between 1 and 50
-- children and whose leaves are known components with properties that pass, of 100 nodes at most in
-- all.
pub validate_ui_document_iff :
    (encoded_size : Fields → ℕ) (d : UiDocument)
    → (validate_ui_document encoded_size d ≡ ok tt) ↔ IsUiDocument encoded_size d
unfolding validate_ui_document
validate_ui_document_iff encoded_size d = from checks refl
  where
    checks : Bool
    checks = not (d.version == "runspace.ui/v1") || is_blank d.title || ltb 160 (String.len d.title)

    from :
        (b : Bool)
        → checks ≡ b
        → ((if b then err graph_invalid else validate_layout encoded_size d.layout) ≡ ok tt)
          ↔ IsUiDocument encoded_size d
    from true bad = (
      λ h. absurd (cc h),
      λ u. absurd (
          let version = u.version in
          let titled = u.titled in
          let short = u.short in
          ground (arith, bad, version, titled, short, eq_iff d.version "runspace.ui/v1")),
    )
    from false good = (
      λ h. record {
        version = ground (arith, good, eq_iff d.version "runspace.ui/v1");
        titled = ground (arith, good);
        short = ground (arith, good);
        nodes = (layout_iff encoded_size d.layout).0 h;
      },
      λ u. (layout_iff encoded_size d.layout).1 u.nodes,
    )
