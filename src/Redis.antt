-- ===== src/Redis.antt =====
-- internal/adapter/redis: the keys, the vote script and the tally over a Redis server.
pub mod Server
pub mod Keys
pub mod Script
pub mod Fault
pub mod Tally
pub mod Aggregation
