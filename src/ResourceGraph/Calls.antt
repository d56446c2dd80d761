-- ===== src/ResourceGraph/Calls.antt =====
-- internal/resourcegraph: any sequence of calls that may change the graph, those of the projections
-- included, and what holds throughout.
use Prim.Native.String
use runspace.Prelude.{
  ℕ, ◌≡◌, refl, ap, ◌∙◌, inl, inr, subst, String, true, some, List, [], ◌∷◌, ◌==◌, eq_iff,
  Bool-cases, if◌then◌else◌,
}
use runspace.Dict
use runspace.Dict.{Dict, get-put}
use runspace.Errors.{Result}
use runspace.Exec.{Exec, pure, attempt, ◌>>=◌, bind-within}
use runspace.ResourceGraph.Model.{Node, Edge, Service, authorize}
use runspace.ResourceGraph.Service.{upsert, upsert_node, create_edge_as, create_edge}
use runspace.ResourceGraph.Service.Nodes.{Fits, NodePut, upsert-outcome, authorize-IsSame}
use runspace.ResourceGraph.Service.Edges.{create_edge_as-nodes}
use runspace.ResourceGraph.Projections.{
  resource_node, discussion_node, task_node, artifact_node, edge_between, project_resource,
  project_discussion, project_agent_task, project_task_artifact,
}

-- The calls with their arguments in the order of the source.
pub data Call : Type 0 where
  put_node : String → Node → Call
  put_edge : String → Edge → Call
  project_a_resource : String → String → String → String → String → ℕ → Call
  project_a_discussion : String → String → String → String → String → ℕ → Call
  project_a_task :
      String → String → String → String → String → String → String → String → ℕ → ℕ → Call
  project_an_artifact : String → String → String → String → String → String → ℕ → Call

module _ {W : Type 0} where
  unfoldable pub serve : Call → Service W → Service W
  serve (put_node caller_id node) s = (upsert_node caller_id node s).1
  serve (put_edge caller_id edge) s = (create_edge caller_id edge s).1
  serve (project_a_resource id workspace_id owner_id provider title at) s =
      (project_resource id workspace_id owner_id provider title at s).1
  serve (project_a_discussion id workspace_id channel_id owner_id title at) s =
      (project_discussion id workspace_id channel_id owner_id title at s).1
  serve
        (project_a_task id workspace_id thread_id owner_id agent_id resource_id title status at
          then')
        s =
      (project_agent_task id workspace_id thread_id owner_id agent_id resource_id title status at
        then' s).1
  serve (project_an_artifact task_id message_id workspace_id thread_id owner_id title at) s =
      (project_task_artifact task_id message_id workspace_id thread_id owner_id title at s).1

  unfoldable pub serve_all : List Call → Service W → Service W
  unfolding serve
  serve_all [] s = s
  serve_all (c ∷ cs) s = serve_all cs (serve c s)

  -- A node of the first state is there in the second, in its workspace and with its time of creation.
  abbrev pub Keeps : Service W → Service W → Type 0
  Keeps s t =
      (id : String) (n : Node)
      → Dict.get s.nodes id ≡ some n
      → (m : Node) × (Dict.get t.nodes id ≡ some m)
        × (m.workspace_id ≡ n.workspace_id)
        × (m.created_at ≡ n.created_at)

  Keeps-same : (s t : Service W) → t.nodes ≡ s.nodes → Keeps s t
  Keeps-same s t same id n h = (n, ap (λ d. Dict.get d id) same ∙ h, refl, refl)

  Keeps-trans : (s t u : Service W) → Keeps s t → Keeps t u → Keeps s u
  Keeps-trans s t u p q id n h =
      let (m, there, workspace, at) = p id n h in
      let (k, still, workspace', at') = q id m there in (k, still, workspace' ∙ workspace, at' ∙ at)

  abbrev AllKeep : {A : Type 0} → Exec (Service W) A → Type 0
  AllKeep m = (s : Service W) → Keeps s (m s).1

  sequence-Keeps :
      {A B : Type 0} (m : Exec (Service W) A) (f : A → Exec (Service W) B)
      → AllKeep m
      → ((a : A) → AllKeep (f a))
      → AllKeep (m >>= f)
  sequence-Keeps m f = bind-within Keeps m f Keeps-trans

  Keeps-put : (s t : Service W) (n : Node) → NodePut s n t → Keeps s t
  Keeps-put s t n put id old h = elim (Bool-cases (n.id == id)) [
    | inl same ↦
        let fits : Fits (some old) n =
          subst (λ o. Fits o n) (ap (Dict.get s.nodes) ((eq_iff n.id id).0 same) ∙ h) put.place in
        (n, there ∙ rw same refl, fits.0, fits.1)
    | inr other ↦ (old, there ∙ rw other h, refl, refl)
  ]
    where
      there : Dict.get t.nodes id ≡ (if n.id == id then some n else Dict.get s.nodes id)
      there = ap (λ d. Dict.get d id) put.nodes ∙ get-put s.nodes n.id id n

  upsert-Keeps : (caller_id : String) (n : Node) → AllKeep (upsert caller_id n)
  upsert-Keeps caller_id n s = elim (upsert-outcome caller_id n s) [
    | inl same ↦ Keeps-same s (upsert caller_id n s).1 same.nodes
    | inr (m, put) ↦ Keeps-put s (upsert caller_id n s).1 m put
  ]

  create_edge_as-Keeps : (caller_id : String) (e : Edge) → AllKeep (create_edge_as caller_id e)
  create_edge_as-Keeps caller_id e s =
      Keeps-same s (create_edge_as caller_id e s).1 (create_edge_as-nodes caller_id e s)

  authorize-Keeps :
      (caller_id workspace_id : String) → AllKeep (authorize caller_id workspace_id true)
  authorize-Keeps caller_id workspace_id s =
      Keeps-same s (authorize caller_id workspace_id true s).1
        (authorize-IsSame caller_id workspace_id true s).nodes

  pure-Keeps : {A : Type 0} (a : A) → AllKeep (pure a)
  pure-Keeps a s = Keeps-same s s refl

  serve-Keeps : (c : Call) (s : Service W) → Keeps s (serve c s)
  unfolding serve upsert_node create_edge project_resource project_discussion project_agent_task
      project_task_artifact
  serve-Keeps (put_node caller_id node) s =
      sequence-Keeps (authorize caller_id node.workspace_id true) _
        (authorize-Keeps caller_id node.workspace_id) (λ _. upsert-Keeps caller_id node) s
  serve-Keeps (put_edge caller_id edge) s =
      sequence-Keeps (authorize caller_id edge.workspace_id true) _
        (authorize-Keeps caller_id edge.workspace_id) (λ _. create_edge_as-Keeps caller_id edge) s
  serve-Keeps (project_a_resource id workspace_id owner_id provider title at) s =
      let node = resource_node id workspace_id owner_id provider title at in
      sequence-Keeps (upsert owner_id node) _ (upsert-Keeps owner_id node) (λ _. pure-Keeps tt) s
  serve-Keeps (project_a_discussion id workspace_id channel_id owner_id title at) s =
      let node = discussion_node id workspace_id channel_id owner_id title at in
      sequence-Keeps (upsert owner_id node) _ (upsert-Keeps owner_id node) (λ _. pure-Keeps tt) s
  serve-Keeps
        (project_a_task id workspace_id thread_id owner_id agent_id resource_id title status at
          then')
        s =
      let node =
        task_node id workspace_id thread_id owner_id agent_id resource_id title status at then' in
      let discussed =
        edge_between (String.◌++◌ "edge:task-discussion:" id) workspace_id (String.◌++◌ "task:" id)
          (String.◌++◌ "discussion:" thread_id) "discussed_in" owner_id in
      let used =
        edge_between (String.◌++◌ "edge:task-resource:" id) workspace_id (String.◌++◌ "task:" id)
          (String.◌++◌ "resource:" resource_id) "uses" owner_id in
      let last : Result Edge → Exec (Service W) (Unit {0}) = λ _. pure tt in
      let second : Result Edge → Exec (Service W) (Unit {0}) =
        λ _. attempt (create_edge_as owner_id used) >>= last in
      let rest : Node → Exec (Service W) (Unit {0}) =
        λ _. attempt (create_edge_as owner_id discussed) >>= second in
      sequence-Keeps (upsert owner_id node) rest (upsert-Keeps owner_id node)
        (λ _.
          sequence-Keeps (attempt (create_edge_as owner_id discussed)) second
            (create_edge_as-Keeps owner_id discussed)
            (λ _.
              sequence-Keeps (attempt (create_edge_as owner_id used)) last
                (create_edge_as-Keeps owner_id used) (λ _. pure-Keeps tt)))
        s
  serve-Keeps (project_an_artifact task_id message_id workspace_id thread_id owner_id title at) s =
      let node = artifact_node task_id message_id workspace_id thread_id owner_id title at in
      let edge =
        edge_between (String.◌++◌ "edge:artifact-task:" message_id) workspace_id
          (String.◌++◌ "artifact:" message_id) (String.◌++◌ "task:" task_id) "produced_by"
          owner_id in
      sequence-Keeps (upsert owner_id node) _ (upsert-Keeps owner_id node)
        (λ _.
          sequence-Keeps (create_edge_as owner_id edge) _ (create_edge_as-Keeps owner_id edge)
            (λ _. pure-Keeps tt))
        s

  -- Whatever calls are served, of people or of the services that project into the graph, and with
  -- whatever failures, each node stays, in its workspace and with its time of creation.
  pub serve_all-Keeps : (cs : List Call) (s : Service W) → Keeps s (serve_all cs s)
  unfolding serve_all
  serve_all-Keeps [] s = Keeps-same s s refl
  serve_all-Keeps (c ∷ cs) s =
      Keeps-trans s (serve c s) (serve_all cs (serve c s)) (serve-Keeps c s)
        (serve_all-Keeps cs (serve c s))
