-- ===== src/ResourceGraph/Ui/Shape.antt =====
-- internal/resourcegraph/ui_schema.go: the number of nodes of a layout, as a description to compare the
-- check with.

use runspace.Prelude.{
  ℕ, zero, suc, ◌+◌, ◌≤◌, ◌≡◌, refl, String, Bool, true, false, ◌&&◌, ◌||◌, Option, none, some,
  arith, eqb, ltb, if◌then◌else◌,
}
use runspace.Errors.{Result, ok, err}
use runspace.ResourceGraph.Value.{Values, nil, cons, Fields, field_of, as_array, as_object}
use runspace.ResourceGraph.Ui.{is_layout, type_of}
use runspace.ResourceGraph.Ui.Props.{known_ui_component, count, validate_ui_props}

abbrev pub is_ok : Result (Unit {0}) → Bool
is_ok (ok a) = true
is_ok (err e) = false

-- The number of nodes of a tree that is formed as it should be, of `levels` levels at most.
abbrev pub leaf_nodes : (Fields → ℕ) → String → Option Fields → Option ℕ
leaf_nodes encoded_size type none = none
leaf_nodes encoded_size type (some props) =
    if known_ui_component type && is_ok (validate_ui_props encoded_size type props)
    then some 1
    else none

abbrev pub add : Option ℕ → Option ℕ → Option ℕ
add (some m) (some n) = some (m + n)
add _ _ = none

abbrev pub child_nodes : (Fields → Option ℕ) → Option Fields → Option ℕ
child_nodes nodes none = none
child_nodes nodes (some item) = nodes item

unfoldable pub children_nodes : (Fields → Option ℕ) → Values → Option ℕ
children_nodes nodes nil = some 0
children_nodes nodes (cons child children) =
    add (child_nodes nodes (as_object (some child))) (children_nodes nodes children)

abbrev pub group_nodes : (Fields → Option ℕ) → Option Values → Option ℕ
group_nodes nodes none = none
group_nodes nodes (some children) =
    if eqb (count children) 0 || ltb 50 (count children)
    then none
    else add (some 1) (children_nodes nodes children)

unfoldable pub nodes_of : (Fields → ℕ) → ℕ → Fields → Option ℕ
nodes_of encoded_size zero node = none
nodes_of encoded_size (suc levels) node =
    let group = group_nodes (nodes_of encoded_size levels) (as_array (field_of node "children")) in
    let leaf = leaf_nodes encoded_size (type_of node) (as_object (field_of node "props")) in
    if is_layout (type_of node) then group else leaf

pub add-some :
    (a b : Option ℕ) (k : ℕ)
    → add a b ≡ some k
    → (m : ℕ) × (n : ℕ) × (a ≡ some m) × (b ≡ some n) × (m + n ≡ k)
add-some none b k h = absurd (cc h)
add-some (some m) none k h = absurd (cc h)
add-some (some m) (some n) k h = (m, n, refl, refl, cc h)

group-positive :
    (nodes : Fields → Option ℕ) (children : Option Values) (n : ℕ)
    → group_nodes nodes children ≡ some n
    → 1 ≤ n
group-positive nodes none n h = absurd (cc h)
group-positive nodes (some children) n h =
    from (eqb (count children) 0 || ltb 50 (count children)) h
  where
    from :
        (b : Bool)
        → (if b then none else add (some 1) (children_nodes nodes children)) ≡ some n
        → 1 ≤ n
    from true e = absurd (cc e)
    from false e =
        let (x, y, one, _, sum) = add-some (some 1) (children_nodes nodes children) n e in
        let first : 1 ≡ x = cc one in omega (arith, first, sum)

leaf-positive :
    (encoded_size : Fields → ℕ) (type : String) (props : Option Fields) (n : ℕ)
    → leaf_nodes encoded_size type props ≡ some n
    → 1 ≤ n
leaf-positive encoded_size type none n h = absurd (cc h)
leaf-positive encoded_size type (some props) n h =
    from (known_ui_component type && is_ok (validate_ui_props encoded_size type props)) h
  where
    from : (b : Bool) → (if b then some 1 else none) ≡ some n → 1 ≤ n
    from true e = let one : 1 ≡ n = cc e in omega (arith, one)
    from false e = absurd (cc e)

pub nodes_of-positive :
    (encoded_size : Fields → ℕ) (levels : ℕ) (node : Fields) (n : ℕ)
    → nodes_of encoded_size levels node ≡ some n
    → 1 ≤ n
unfolding nodes_of
nodes_of-positive encoded_size zero node n h = absurd (cc h)
nodes_of-positive encoded_size (suc levels) node n h = from (is_layout (type_of node)) h
  where
    group : Option ℕ
    group = group_nodes (nodes_of encoded_size levels) (as_array (field_of node "children"))

    leaf : Option ℕ
    leaf = leaf_nodes encoded_size (type_of node) (as_object (field_of node "props"))

    from : (b : Bool) → (if b then group else leaf) ≡ some n → 1 ≤ n
    from true e =
        group-positive (nodes_of encoded_size levels) (as_array (field_of node "children")) n e
    from false e = leaf-positive encoded_size (type_of node) (as_object (field_of node "props")) n e
