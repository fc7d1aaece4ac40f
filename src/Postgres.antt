-- ===== src/Postgres.antt =====
-- internal/adapter/postgres: the repositories of polls and of results, over their tables. A statement runs
-- on the table it names; a failure of the database is an argument of each call and changes no table.
pub mod Polls
pub mod Results
pub mod Admins
