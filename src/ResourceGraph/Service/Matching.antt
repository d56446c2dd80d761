-- ===== src/ResourceGraph/Service/Matching.antt =====
-- internal/resourcegraph/service.go: the nodes that a query is about.
use Prim.Native.String
use Prim.Native.String.append
use runspace.Prelude.{
  ◌≡◌, refl, sym, ap, ◌∙◌, ◌⊎◌, inl, inr, String, true, Option, some, arith, eq_iff, Bool-cases,
  is_empty, ◌==◌, ◌||◌,
}
use runspace.Text.{trim_space, has_prefix}
use runspace.Text.Prefix.{prefix-rest, has_prefix-append}
use runspace.Dict
use runspace.Dict.{Dict}
use runspace.ResourceGraph.Value.{Value, as_text, or_empty}
use runspace.ResourceGraph.Model.{
  Node, Query, contains_text, matches_text, metadata_string, matches_node,
}

-- The second text stands somewhere in the first.
abbrev pub Contains : String → String → Type 0
Contains s t = (before : String) × (after : String) × (s ≡ String.◌++◌ before (String.◌++◌ t after))

contains_text-Contains : (s t : String) → contains_text s t ≡ true → Contains s t
unfolding contains_text
contains_text-Contains String.[] String.[] h =
    ("", "", sym (append.nil (String.◌++◌ "" "") ∙ append.nil ""))
contains_text-Contains String.[] (String.◌∷◌ d t) h = absurd (cc h)
contains_text-Contains (String.◌∷◌ c s) t h = elim (Bool-cases (has_prefix (String.◌∷◌ c s) t)) [
  | inl here ↦
      let (rest, e) = prefix-rest (String.◌∷◌ c s) t here in
      ("", rest, e ∙ sym (append.nil (String.◌++◌ t rest)))
  | inr later ↦
      let (before, after, e) = contains_text-Contains s t (ground (arith, h, later)) in
      (
        String.◌∷◌ c before,
        after,
        ap (String.◌∷◌ c) e ∙ sym (append.cons c before (String.◌++◌ t after)),
      )
]

prefix-contains_text : (s t : String) → has_prefix s t ≡ true → contains_text s t ≡ true
unfolding contains_text has_prefix
prefix-contains_text String.[] String.[] h = refl
prefix-contains_text String.[] (String.◌∷◌ d t) h = absurd (cc h)
prefix-contains_text (String.◌∷◌ c s) t h = ground (arith, h)

Contains-contains_text :
    (before t after : String) → contains_text (String.◌++◌ before (String.◌++◌ t after)) t ≡ true
unfolding contains_text
Contains-contains_text String.[] t after =
    rw (append.nil (String.◌++◌ t after))
      (prefix-contains_text (String.◌++◌ t after) t (has_prefix-append t after))
Contains-contains_text (String.◌∷◌ c before) t after =
    rw (append.cons c before (String.◌++◌ t after))
      (ground (arith, Contains-contains_text before t after))

-- What a query asks of a node. An empty kind, type, thread or text asks nothing.
pub record Matches (lower : String → String) (workspace_id : String) (query : Query) (n : Node)
    : Type 0 where
  pub workspace : n.workspace_id ≡ workspace_id
  pub kind : (query.kind ≡ "") ⊎ (n.kind ≡ query.kind)
  pub type : (query.type ≡ "") ⊎ (n.type ≡ query.type)
  pub thread :
      (query.thread_id ≡ "") ⊎ (Dict.get n.metadata "thread_id" ≡ some (Value.text query.thread_id))
  pub text :
      (lower (trim_space query.text) ≡ "")
      ⊎ Contains
          (lower (String.◌++◌ n.title (String.◌++◌ " " n.summary)))
          (lower (trim_space query.text))

empty_text : (s : String) → is_empty s ≡ true → s ≡ ""
empty_text String.[] h = refl
empty_text (String.◌∷◌ c s) h = absurd (cc h)

-- A test that is passed by an empty text, or by one that is the same.
one_of :
    (given found : String)
    → (is_empty given || found == given) ≡ true
    → (given ≡ "") ⊎ (found ≡ given)
one_of given found h = elim (Bool-cases (is_empty given)) [
  | inl blank ↦ inl (empty_text given blank)
  | inr named ↦ inr ((eq_iff found given).0 (ground (arith, h, named)))
]

one_of-passes :
    (given found : String)
    → (given ≡ "") ⊎ (found ≡ given)
    → (is_empty given || found == given) ≡ true
one_of-passes given found (inl blank) = rw blank refl
one_of-passes given found (inr same) = ground (arith, (eq_iff found given).1 same)

text_of :
    (o : Option Value) (t : String)
    → or_empty (as_text o) ≡ t
    → (t ≡ "") ⊎ (o ≡ some (Value.text t))
text_of (some (Value.text s)) t h = inr (ap (λ x. some (Value.text x)) h)
text_of o t h = inl (sym h)

module _ (lower : String → String) (workspace_id : String) (query : Query) (n : Node) where
  pub matches_node-Matches :
      matches_node lower n workspace_id query ≡ true → Matches lower workspace_id query n
  unfolding matches_node matches_text metadata_string
  matches_node-Matches h = record {
    workspace = (eq_iff n.workspace_id workspace_id).0 (ground (arith, h));
    kind = one_of query.kind n.kind (ground (arith, h));
    type = one_of query.type n.type (ground (arith, h));
    thread =
        elim (one_of query.thread_id (metadata_string n.metadata "thread_id") (ground (arith, h))) [
          | inl blank ↦ inl blank
          | inr same ↦ text_of (Dict.get n.metadata "thread_id") query.thread_id same
        ];
    text = elim (Bool-cases (is_empty (lower (trim_space query.text)))) [
      | inl blank ↦ inl (empty_text _ blank)
      | inr asked ↦ inr (contains_text-Contains _ _ (ground (arith, h, asked)))
    ];
  }

  Matches-thread :
      (query.thread_id ≡ "") ⊎ (Dict.get n.metadata "thread_id" ≡ some (Value.text query.thread_id))
      → (is_empty query.thread_id || metadata_string n.metadata "thread_id" == query.thread_id)
        ≡ true
  unfolding metadata_string
  Matches-thread (inl blank) = one_of-passes _ _ (inl blank)
  Matches-thread (inr there) = one_of-passes _ _ (inr (ap (λ o. or_empty (as_text o)) there))

  Matches-text :
      (lower (trim_space query.text) ≡ "")
        ⊎ Contains
            (lower (String.◌++◌ n.title (String.◌++◌ " " n.summary)))
            (lower (trim_space query.text))
      → matches_text lower n query.text ≡ true
  unfolding matches_text
  Matches-text (inl blank) = ground (arith, ap is_empty blank)
  Matches-text (inr (before, after, e)) =
      let found : contains_text (lower (String.◌++◌ n.title (String.◌++◌ " " n.summary)))
            (lower (trim_space query.text))
          ≡ true =
        rw e (Contains-contains_text before (lower (trim_space query.text)) after) in
      ground (arith, found)

  pub Matches-matches_node :
      Matches lower workspace_id query n → matches_node lower n workspace_id query ≡ true
  unfolding matches_node
  Matches-matches_node m = ground (
    arith,
    (eq_iff n.workspace_id workspace_id).1 m.workspace,
    one_of-passes query.kind n.kind m.kind,
    one_of-passes query.type n.type m.type,
    Matches-thread m.thread,
    Matches-text m.text,
  )
