-- ===== src/ResourceGraph.antt =====
-- internal/resourcegraph: the graph of a workspace's resources. Value has the JSON values, Model the
-- state, Service the operations of service.go, Projections those of projections.go, Calls any sequence
-- of them, and Ui the checks of ui_schema.go.
pub mod Value
pub mod Model
pub mod Service
pub mod Projections
pub mod Ui
pub mod Calls
mod Tests
