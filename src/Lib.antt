-- ===== src/Lib.antt =====
-- The core of the gateway of Runspace: what it keeps in memory, and how it changes it.
--
-- Lib's modules follow the Go packages under internal/:
--   Contracts  contracts/: Run the states of a run and TransitionRun (run.go), Run/Lifecycle its moves
--              as a relation; Event the event envelope, Validate and NewEvent (events.go).
--   Outbox     events/store.go: MemoryStore with Append, Pending and MarkPublished; Outbox/Queue sees
--              it as the queue of the unpublished events, Outbox/Changes proves its operations.
--   Realtime   realtime/hub.go: MemoryHub. Channels stand on a heap (`feeds`), and a channel is known
--              by its place there; `close_subscription` is the function SubscribeSince returns.
--              Realtime/Replay is about the history, Realtime/Channels about the subscribers.
--   Runs       runs/service.go, io.go, history.go, retry.go: the run service. Runs/Model has its state,
--              Runs and Runs/Ending its methods, Runs/Steps the threads that share it, with Steps/Calls
--              whole calls one after the other, Runs/Outcomes what single calls leave behind.
--   Workspace  workspace/: Policy the roles (policy.go), Slug slugify, Model the state of MemoryService,
--              Workspace, Members and Resources its methods (memory.go, memory_access.go,
--              memory_hydration.go), Outcomes, Granted and Effects what they leave
--              behind, Owners that a workspace has one, Invariant what holds throughout.
--   AgentRegistry  agentregistry/: Model the state, AgentRegistry the installations (service.go), Tasks and
--              Work the tasks (tasks.go), Grants the grants (task_grants.go), Access who reaches a task.
--   Collaboration  collaboration/: Model the state of MemoryService and its ids (service.go), Config and
--              RepositoryIds what a channel inherits (channels.go, repository_ids.go), Channels,
--              Threads and Messages the methods, Quiet what changes nothing, Outcomes what each call
--              leaves behind, Calls any sequence of them, Invariant what holds throughout, Ids which
--              ids are the same.
--   Secrets    secrets/service.go: Model the state with sealing and opening, Secrets the methods,
--              Climbing the loop of Resolve up the parents of a channel, InCollaboration the service over the
--              one of collaboration, Sealing a secret that is set and resolved, Deleting Delete.
--   ResourceGraph  resourcegraph/: Value the JSON values, Model the state (models.go), Service the
--              methods (service.go), Projections what other services put in (projections.go), Calls
--              any sequence of them, Ui the checks of a UI document (ui_schema.go), with Ui/Props those
--              of one component, Ui/Shape the number of nodes and Ui/Nesting what passes.
--   FileSync   filesync/service.go: Model the data and what the service calls (syncthing.go), FileSync the
--              methods, Sessions what Register leaves behind, Filed where sessions stand throughout.
--   Sandbox    sandbox/service.go: how a path is resolved, Inside that it stays in the root; Files the
--              methods Tree and Read, Files/Rooted where a resolved path stands, Files/Bounded what they
--              show and read.
-- A run publishes events (Contracts) to a publisher, which in the gateway is the outbox and the hub; so
-- does the collaboration service. Secrets asks it for a channel and the channel's parents.
-- The workspace, collaboration and agent services project what they make into the resource graph.
--
-- Exec is what a Go method is here: a function from the state to a result and the new state. Errors
-- has the error values; a panic is an error of its own. Dict is Go's map with text keys, Text what is
-- used of the packages strings and unicode, Prelude the shared lemmas, Samples data for the tests.
--
-- A method's action is split where it takes and leaves the mutex: `…_locked` is what runs under it.
-- A context is known by a number, or is just the error it gives when asked. An instant is a number of
-- nanoseconds. A counter of 64 bits wraps.
--
-- Agents, durable stores, publishers, clocks and encoding/json are parameters: a world `W` of any
-- kind that the calls read and change. Nothing is assumed of them.
-- A cipher, a source of random bytes and strings.ToLower are parameters too; of the cipher a round trip
-- assumes that it opens what it has sealed.
-- A loop goes over a list, and a goroutine that follows a stream gets the list of the items that the
-- stream delivers before it is closed. Only the loops of Secrets up the parents, of Resolve and of
-- List, run on fuel, one unit a round. For Resolve, where every channel stands below its parent, the
-- height of the channel and one more are enough (Secrets/Climbing). The depth of a UI document goes by
-- the levels that are left, of nine.
-- The listing of the resource graph takes the order in which Go goes over a map as a parameter; the
-- other listings go over it in the order of insertion.
--
-- Not modelled: the HTTP handlers, which decode requests and call the services; the SQL stores, which are
-- parameters; processes and sockets (hostagent, runtime, terminal, the client of
-- Syncthing); publishing, repositories and resource plugins; metrics; the web application.
pub mod Prelude
pub mod Text
pub mod Dict
pub mod Errors
pub mod FileSync
pub mod Exec
pub mod Contracts
pub mod Samples
pub mod Outbox
pub mod Realtime
pub mod Runs
pub mod Workspace
pub mod AgentRegistry
pub mod Collaboration
pub mod Secrets
pub mod ResourceGraph
pub mod Sandbox
