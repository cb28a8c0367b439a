-- ===== src/Store.antt =====
-- internal/store: the database of the collector. `Tables` has its rows, `Db` the way a statement
-- runs or fails, and the other modules the methods of `store.DB`, by the records they serve.
pub mod Tables
pub mod Db
pub mod Triples
pub mod Halts
pub mod Events
pub mod Pods
pub mod Snapshots
pub mod Changes
pub mod Incidents
pub mod Prune
pub mod Timeline
