-- ===== src/Repository.antt =====
-- internal/repository: the two Postgres tables, the cursors and the pending stream in Redis.
pub mod Timed
pub mod Sql
pub mod Tables
pub mod Stream
pub mod Message
pub mod Group
pub mod Save
pub mod Cursors
pub mod Pages
