-- ===== src/Contracts.antt =====
-- internal/contracts: the values that the services exchange, the life of a run, and the envelope of
-- an event with its validation.
pub mod Run
pub mod Event
