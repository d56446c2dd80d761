-- ===== src/ResourceGraph/Service/Listing.antt =====
-- internal/resourcegraph/service.go: what ListNodes gives.

use runspace.Prelude.{
  ltb, ℕ, zero, suc, ◌≤◌, ◌≡◌, refl, sym, ap, ◌∙◌, ◌⊎◌, inl, inr, String, Bool, true, Option, some,
  List, [], ◌∷◌, arith, length, take, select, Bool-cases, ◌<◌, In, All, ◌↔◌, subst, none, false,
}
use runspace.Dict
use runspace.Dict.{Dict}
use runspace.Errors.{ok}
use runspace.Exec.{bind-ok}
use runspace.ResourceGraph.Model.{
  Node, Query, normalized_limit, matches_node, Service, Store, authorize,
}
use runspace.ResourceGraph.Service.{take_matching, list_nodes, nodes_from}
use runspace.ResourceGraph.Service.Nodes.{IsSame, authorize-IsSame}
use runspace.ResourceGraph.Service.Matching.{Matches, matches_node-Matches, Matches-matches_node}

take_matching-select :
    (p : Node → Bool) (limit : ℕ) (nodes : List Node)
    → take_matching p limit nodes ≡ take limit (select p nodes)
unfolding take_matching
take_matching-select p zero nodes = refl
take_matching-select p (suc limit) [] = refl
take_matching-select p (suc limit) (n ∷ nodes) = elim (Bool-cases (p n)) [
  | inl y ↦ rw (y, select) (ap (λ l. n ∷ l) (take_matching-select p limit nodes))
  | inr x ↦ rw (x, select) (take_matching-select p (suc limit) nodes)
]

-- A front is full, or it is the whole list.
take-cases : {A : Type 0} (k : ℕ) (xs : List A) → (length (take k xs) ≡ k) ⊎ (take k xs ≡ xs)
take-cases zero xs = inl refl
take-cases (suc k) [] = inr refl
take-cases (suc k) (x ∷ xs) = elim (take-cases k xs) [
  | inl full ↦ inl (ap suc full)
  | inr whole ↦ inr (ap (λ l. x ∷ l) whole)
]

length-take-le : {A : Type 0} (k : ℕ) (xs : List A) → length (take k xs) ≤ k
length-take-le zero xs = omega arith
length-take-le (suc k) [] = omega arith
length-take-le (suc k) (x ∷ xs) = omega (arith, length-take-le k xs)

module _ (p : Node → Bool) where
  select-In : (nodes : List Node) → All (λ n. In n nodes × (p n ≡ true)) (select p nodes)
  select-In nodes = from nodes (λ n there. there)
    where
      from :
          (rest : List Node)
          → ((n : Node) → In n rest → In n nodes)
          → All (λ n. In n nodes × (p n ≡ true)) (select p rest)
      from [] sub = tt
      from (x ∷ rest) sub = elim (Bool-cases (p x)) [
        | inl y ↦ rw (y, select) ((sub x (inl refl), y), from rest (λ n there. sub n (inr there)))
        | inr z ↦ rw (z, select) (from rest (λ n there. sub n (inr there)))
      ]

  In-select : (n : Node) (nodes : List Node) → In n nodes → p n ≡ true → In n (select p nodes)
  In-select n [] there y = absurd there
  In-select n (x ∷ nodes) (inl same) y = rw (ap p same ∙ y, select) (inl same)
  In-select n (x ∷ nodes) (inr there) y = elim (Bool-cases (p x)) [
    | inl fits ↦ rw (fits, select) (inr (In-select n nodes there y))
    | inr other ↦ rw (other, select) (In-select n nodes there y)
  ]

take-All : (P : Node → Type 0) (k : ℕ) (nodes : List Node) → All P nodes → All P (take k nodes)
take-All P zero nodes h = tt
take-All P (suc k) [] h = tt
take-All P (suc k) (n ∷ nodes) h = (h.0, take-All P k nodes h.1)

All-map :
    (P Q : Node → Type 0) (nodes : List Node) → ((n : Node) → P n → Q n) → All P nodes → All Q nodes
All-map P Q [] f h = tt
All-map P Q (n ∷ nodes) f h = (f n h.0, All-map P Q nodes f h.1)

All-In : (nodes : List Node) → All (λ n. In n nodes) nodes
All-In nodes = from nodes (λ n there. there)
  where
    from : (rest : List Node) → ((n : Node) → In n rest → In n nodes) → All (λ n. In n nodes) rest
    from [] sub = tt
    from (x ∷ rest) sub = (sub x (inl refl), from rest (λ n there. sub n (inr there)))

-- The length of a listing for a limit that is asked for.
abbrev pub IsBound : ℕ → ℕ → Type 0
IsBound limit bound =
    ((limit < 1) × (bound ≡ 50))
    ⊎ (((200 < limit) × (bound ≡ 200)) ⊎ ((1 ≤ limit) × (limit ≤ 200) × (bound ≡ limit)))

normalized_limit-IsBound : (limit : ℕ) → IsBound limit (normalized_limit limit)
unfolding normalized_limit
normalized_limit-IsBound limit = elim (Bool-cases (ltb limit 1)) [
  | inl low ↦ rw low (inl (ground (arith, low), refl))
  | inr some' ↦ elim (Bool-cases (ltb 200 limit)) [
    | inl high ↦ rw (some', high) (inr (inl (ground (arith, high), refl)))
    | inr fits ↦ rw (some', fits) (inr (inr (ground (arith, some'), ground (arith, fits), refl)))
  ]
]

-- An order of going over the nodes of a map: each once or more, and no other.
abbrev pub IsOrder : (List Node → List Node) → Type 0
IsOrder order = (nodes : List Node) (n : Node) → In n (order nodes) ↔ In n nodes

-- The nodes of a listing: they match, and are all that match or as many as may be.
pub record Listed (lower : String → String) (workspace_id : String) (query : Query)
    (all nodes : List Node) : Type 0 where
  pub bound : ℕ
  pub limit : IsBound query.limit bound
  pub right : All (λ n. In n all × Matches lower workspace_id query n) nodes
  pub short : length nodes ≤ bound
  pub complete :
      (length nodes ≡ bound) ⊎ All (λ n. ¬ Matches lower workspace_id query n ⊎ In n nodes) all

module _ (order : List Node → List Node) (is : IsOrder order) (lower : String → String)
    (workspace_id : String) (query : Query) where
  taken-Listed :
      (all : List Node)
      → Listed lower workspace_id query all (
          take_matching
            (λ n.
              matches_node lower n workspace_id
                (record query { limit = normalized_limit query.limit }))
            (normalized_limit query.limit)
            (order all))
  taken-Listed all =
      rw (take_matching-select p (normalized_limit query.limit) (order all)) (record {
        bound = normalized_limit query.limit;
        limit = normalized_limit-IsBound query.limit;
        right =
            take-All (λ n. In n all × Matches lower workspace_id query n)
              (normalized_limit query.limit) (select p (order all))
              (All-map (λ n. In n (order all) × (p n ≡ true))
                (λ n. In n all × Matches lower workspace_id query n) (select p (order all))
                (λ n h. ((is all n).0 h.0, right n h.1)) (select-In p (order all)));
        short = length-take-le (normalized_limit query.limit) (select p (order all));
        complete = elim (take-cases (normalized_limit query.limit) (select p (order all))) [
          | inl full ↦ inl full
          | inr whole ↦ inr (
              subst (λ l. All (λ n. ¬ Matches lower workspace_id query n ⊎ In n l) all) (sym whole)
                (All-map (λ n. In n all)
                  (λ n. ¬ Matches lower workspace_id query n ⊎ In n (select p (order all))) all
                  (λ n there. elim (Bool-cases (p n)) [
                    | inl fits ↦ inr (In-select p n (order all) ((is all n).1 there) fits)
                    | inr other ↦ inl (λ m. absurd (grind (arith, other, wrong n m)))
                  ])
                  (All-In all)))
        ];
      })
    where
      limited : Query
      limited = record query { limit = normalized_limit query.limit }

      p : Node → Bool
      p n = matches_node lower n workspace_id limited

      right : (n : Node) → p n ≡ true → Matches lower workspace_id query n
      right n h =
          let m = matches_node-Matches lower workspace_id limited n h in
          record {
            workspace = m.workspace;
            kind = m.kind;
            type = m.type;
            thread = m.thread;
            text = m.text;
          }

      wrong : (n : Node) → Matches lower workspace_id query n → p n ≡ true
      wrong n m = Matches-matches_node lower workspace_id limited n (record {
        workspace = m.workspace;
        kind = m.kind;
        type = m.type;
        thread = m.thread;
        text = m.text;
      })

module _ {W : Type 0} (order : List Node → List Node) (is : IsOrder order) (lower : String → String)
    (caller_id workspace_id : String) (query : Query) where
  -- Without a durable store, and in whatever order the map is gone over, a listing that succeeds gives
  -- nodes of the workspace that match the query: of its kind, of its type, with its thread as their
  -- metadata and with its text in their title and summary, as far as it asks for these. There are at
  -- most 50 of them if no limit is asked for, at most 200 if more is, and otherwise at most as many as
  -- asked for, and a listing that is shorter than that has every node that matches.
  pub list_nodes-Listed :
      (s t : Service W) (nodes : List Node)
      → s.store ≡ none
      → list_nodes order lower caller_id workspace_id query s ≡ (ok nodes, t)
      → Listed lower workspace_id query (Dict.values s.nodes) nodes
  unfolding list_nodes
  list_nodes-Listed s t nodes alone h =
      let (_, u, e, rest) = bind-ok (authorize caller_id workspace_id false) _ s t nodes h in
      let same =
        subst (IsSame s) (ap (λ p. p.1) e) (authorize-IsSame caller_id workspace_id false s) in
      from u.store u (same.store ∙ alone) same rest
    where
      from :
          (store : Option (Store W)) (u : Service W)
          → store ≡ none
          → IsSame s u
          → nodes_from order lower workspace_id
              (record query { limit = normalized_limit query.limit })
              store
              u
            ≡ (ok nodes, t)
          → Listed lower workspace_id query (Dict.values s.nodes) nodes
      from (some store) u none' same rest = absurd (cc none')
      from none u none' same rest =
          subst (Listed lower workspace_id query (Dict.values s.nodes))
            (ap
                (λ d.
                  take_matching
                    (λ n.
                      matches_node lower n workspace_id
                        (record query { limit = normalized_limit query.limit }))
                    (normalized_limit query.limit) (order (Dict.values d)))
                (sym same.nodes)
              ∙ sym (cc (ap (λ p. p.0) rest)))
            (taken-Listed order is lower workspace_id query (Dict.values s.nodes))
