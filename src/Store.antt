-- ===== src/Store.antt =====
-- crates/s2l-store: the message log, its search and the conditions of groups and rules.
pub mod Glob
pub mod Log
pub mod Matcher
pub mod Query
pub mod Record
pub mod Segments
