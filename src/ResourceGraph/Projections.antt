-- ===== src/ResourceGraph/Projections.antt =====
-- internal/resourcegraph/projections.go: the nodes and edges that other services put into the graph.
use Prim.Native.String
use runspace.Prelude.{ℕ, String}
use runspace.Dict
use runspace.Dict.{Dict}
use runspace.Exec.{Exec, pure, attempt, ◌>>=◌}
use runspace.ResourceGraph.Value.{Value}
use runspace.ResourceGraph.Model.{Node, Edge, Service}
use runspace.ResourceGraph.Service.{upsert, create_edge_as}

-- An entry of a map of texts, in front of the others.
abbrev with_text : String → String → Dict Value → Dict Value
with_text key value metadata = Dict.put metadata key (Value.text value)

abbrev projected : String → String → String → String → String → String → Dict Value → ℕ → ℕ → Node
projected id workspace_id kind type title owner_id metadata created_at updated_at = record {
  id = id;
  workspace_id = workspace_id;
  kind = kind;
  type = type;
  title = title;
  summary = "";
  external_ref = "";
  owner_id = owner_id;
  metadata = metadata;
  created_at = created_at;
  updated_at = updated_at;
}

abbrev pub edge_between : String → String → String → String → String → String → Edge
edge_between id workspace_id from_id to_id relation created_by = record {
  id = id;
  workspace_id = workspace_id;
  from_id = from_id;
  to_id = to_id;
  relation = relation;
  created_by = created_by;
  metadata = Dict.empty;
  created_at = 0;
}

abbrev pub resource_node : String → String → String → String → String → ℕ → Node
resource_node id workspace_id owner_id provider title created_at =
    projected (String.◌++◌ "resource:" id) workspace_id "resource" provider title owner_id
      (with_text "entity_id" id (with_text "provider" provider Dict.empty)) created_at 0

abbrev pub discussion_node : String → String → String → String → String → ℕ → Node
discussion_node id workspace_id channel_id owner_id title created_at =
    projected (String.◌++◌ "discussion:" id) workspace_id "discussion" "thread" title owner_id
      (with_text "entity_id" id
        (with_text "thread_id" id (with_text "channel_id" channel_id Dict.empty)))
      created_at 0

abbrev pub task_node :
    String → String → String → String → String → String → String → String → ℕ → ℕ → Node
task_node id workspace_id thread_id owner_id agent_id resource_id title status created_at
      updated_at =
    projected (String.◌++◌ "task:" id) workspace_id "task" "agent_work" title owner_id
      (with_text "entity_id" id (
        with_text "thread_id" thread_id (
          with_text "agent_id" agent_id
            (with_text "resource_id" resource_id (with_text "status" status Dict.empty)))))
      created_at updated_at

abbrev pub artifact_node : String → String → String → String → String → String → ℕ → Node
artifact_node task_id message_id workspace_id thread_id owner_id title created_at =
    projected (String.◌++◌ "artifact:" message_id) workspace_id "artifact" "agent_output" title
      owner_id
      (with_text "entity_id" message_id
        (with_text "thread_id" thread_id (with_text "task_id" task_id Dict.empty)))
      created_at 0

module _ {W : Type 0} where
  unfoldable pub project_resource :
      String → String → String → String → String → ℕ → Exec (Service W) (Unit {0})
  project_resource id workspace_id owner_id provider title created_at = do
    node ← upsert owner_id (resource_node id workspace_id owner_id provider title created_at)
    pure tt

  unfoldable pub project_discussion :
      String → String → String → String → String → ℕ → Exec (Service W) (Unit {0})
  project_discussion id workspace_id channel_id owner_id title created_at = do
    node ← upsert owner_id (discussion_node id workspace_id channel_id owner_id title created_at)
    pure tt

  -- The edges may fail unseen.
  unfoldable pub project_agent_task :
      String
      → String
      → String
      → String
      → String
      → String
      → String
      → String
      → ℕ
      → ℕ
      → Exec (Service W) (Unit {0})
  project_agent_task id workspace_id thread_id owner_id agent_id resource_id title status created_at
        updated_at =
      do
        node ← upsert owner_id (
            task_node id workspace_id thread_id owner_id agent_id resource_id title status
              created_at updated_at)
        discussed ← attempt (
            create_edge_as owner_id (
              edge_between (String.◌++◌ "edge:task-discussion:" id) workspace_id
                (String.◌++◌ "task:" id) (String.◌++◌ "discussion:" thread_id) "discussed_in"
                owner_id))
        used ← attempt (
            create_edge_as owner_id (
              edge_between (String.◌++◌ "edge:task-resource:" id) workspace_id
                (String.◌++◌ "task:" id) (String.◌++◌ "resource:" resource_id) "uses" owner_id))
        pure tt

  unfoldable pub project_task_artifact :
      String → String → String → String → String → String → ℕ → Exec (Service W) (Unit {0})
  project_task_artifact task_id message_id workspace_id thread_id owner_id title created_at = do
    node ←
        upsert owner_id
          (artifact_node task_id message_id workspace_id thread_id owner_id title created_at)
    edge ← create_edge_as owner_id (
        edge_between (String.◌++◌ "edge:artifact-task:" message_id) workspace_id
          (String.◌++◌ "artifact:" message_id) (String.◌++◌ "task:" task_id) "produced_by" owner_id)
    pure tt
