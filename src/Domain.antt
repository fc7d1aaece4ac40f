-- ===== src/Domain.antt =====
-- internal/domain: entities, choice rules, the poll's state machine, aggregates and voter ids.
pub mod Poll
pub mod Choices
pub mod Window
pub mod Aggregate
pub mod Voter
pub mod Create
