-- ===== src/ResourceGraph/Service/Nodes.antt =====
-- internal/resourcegraph/service.go: what putting in a node leaves behind.
use runspace.Prelude.{
  ℕ, ◌≡◌, refl, ◌∙◌, ◌⊎◌, inl, inr, String, Bool, true, false, Option, none, some, arith, eq_iff,
  Bool-cases,
}
use runspace.Text.{is_blank}
use runspace.Dict
use runspace.Dict.{Dict, get-put}
use runspace.Errors.{Result-cases}
use runspace.Exec.{pure, ◌>>=◌}
use runspace.ResourceGraph.Model.{
  Node, Store, Service, normalize_node, valid_node, authorize, Authorizer, asked,
}
use runspace.ResourceGraph.Service.{foreign, stamped, save_node, upsert}

-- What the place of a node was: empty, or that of a node of the same workspace and time of creation.
abbrev pub Fits : Option Node → Node → Type 0
Fits none n = Unit {0}
Fits (some old) n = (n.workspace_id ≡ old.workspace_id) × (n.created_at ≡ old.created_at)

stamped-valid :
    (existing : Option Node) (caller_id : String) (now : ℕ) (n : Node)
    → valid_node (stamped existing caller_id now n) ≡ valid_node n
unfolding stamped valid_node
stamped-valid existing caller_id now n = refl

stamped-Fits :
    (existing : Option Node) (caller_id : String) (now : ℕ) (n : Node)
    → foreign existing n ≡ false
    → Fits existing (stamped existing caller_id now n)
unfolding stamped
stamped-Fits none caller_id now n own = tt
stamped-Fits (some old) caller_id now n own =
    (ground (arith, own, eq_iff old.workspace_id n.workspace_id), refl)

stamped-place :
    (d : Dict Node) (caller_id : String) (now : ℕ) (n : Node)
    → foreign (Dict.get d n.id) n ≡ false
    → let m = stamped (Dict.get d n.id) caller_id now n in Fits (Dict.get d m.id) m
unfolding stamped
stamped-place d caller_id now n own = stamped-Fits (Dict.get d n.id) caller_id now n own

module _ {W : Type 0} where
  pub record IsSame (s t : Service W) : Type 0 where
    pub nodes : t.nodes ≡ s.nodes
    pub edges : t.edges ≡ s.edges
    pub store : t.store ≡ s.store

  pub unchanged : (s : Service W) → IsSame s s
  unchanged s = record { nodes = refl; edges = refl; store = refl }

  pub IsSame-trans : {s t u : Service W} → IsSame s t → IsSame t u → IsSame s u
  IsSame-trans p q = record {
    nodes = q.nodes ∙ p.nodes;
    edges = q.edges ∙ p.edges;
    store = q.store ∙ p.store;
  }

  pub record NodePut (s : Service W) (n : Node) (t : Service W) : Type 0 where
    pub nodes : t.nodes ≡ Dict.put s.nodes n.id n
    pub edges : t.edges ≡ s.edges
    pub store : t.store ≡ s.store
    pub valid : valid_node n ≡ true
    pub place : Fits (Dict.get s.nodes n.id) n

  save_node-IsSame :
      (n m : Node) (store : Option (Store W)) (s : Service W)
      → IsSame s ((save_node n store >>= λ _. pure m) s).1
  unfolding save_node
  save_node-IsSame n m none s = unchanged s
  save_node-IsSame n m (some store) s = elim (Result-cases (store.upsert_graph_node n s.world).0) [
    | inl (_, e) ↦ rw e (record { nodes = refl; edges = refl; store = refl })
    | inr (_, e) ↦ rw e (record { nodes = refl; edges = refl; store = refl })
  ]

  -- Putting in a node, which a projection does too, leaves the edges as they are. It leaves the nodes
  -- too, or it puts in one valid node, and where one had its id, that was of the same workspace, and
  -- its time of creation is kept.
  pub upsert-outcome :
      (caller_id : String) (given : Node) (s : Service W)
      → let t = (upsert caller_id given s).1 in IsSame s t ⊎ ((n : Node) × NodePut s n t)
  unfolding upsert
  upsert-outcome caller_id given s = elim (Bool-cases (valid_node node)) [
    | inr invalid ↦ rw (invalid, upsert) (inl (unchanged s))
    | inl valid ↦ elim (Bool-cases (foreign (Dict.get s.nodes node.id) node)) [
      | inl other ↦
          rw (valid, other, upsert) (inl (record { nodes = refl; edges = refl; store = refl }))
      | inr own ↦
          let n = stamped (Dict.get s.nodes node.id) caller_id (s.now s.world).0 node in
          let after =
            save_node-IsSame n n s.store
              (record s { world = (s.now s.world).1; nodes = Dict.put s.nodes n.id n }) in
          rw (valid, own, upsert)
            (inr (
              n,
              record {
                nodes = after.nodes;
                edges = after.edges;
                store = after.store;
                valid = stamped-valid _ caller_id (s.now s.world).0 node ∙ valid;
                place = stamped-place s.nodes caller_id (s.now s.world).0 node own;
              },
            ))
    ]
  ]
    where
      node : Node
      node = normalize_node given

module _ {W : Type 0} where
  asked-IsSame :
      (write : Bool) (a : Option (Authorizer W)) (workspace_id caller_id : String) (s : Service W)
      → IsSame s (asked write a workspace_id caller_id s).1
  unfolding asked
  asked-IsSame write none workspace_id caller_id s = unchanged s
  asked-IsSame true (some a) workspace_id caller_id s = record {
    nodes = refl;
    edges = refl;
    store = refl;
  }
  asked-IsSame false (some a) workspace_id caller_id s = record {
    nodes = refl;
    edges = refl;
    store = refl;
  }

  pub authorize-IsSame :
      (caller_id workspace_id : String) (write : Bool) (s : Service W)
      → IsSame s (authorize caller_id workspace_id write s).1
  unfolding authorize
  authorize-IsSame caller_id workspace_id write s = elim (Bool-cases (is_blank caller_id)) [
    | inl nobody ↦ rw nobody (unchanged s)
    | inr somebody ↦ elim (Bool-cases (is_blank workspace_id)) [
      | inl nowhere ↦ rw (somebody, nowhere) (unchanged s)
      | inr somewhere ↦
          rw (somebody, somewhere) (asked-IsSame write s.authorizer workspace_id caller_id s)
    ]
  ]
