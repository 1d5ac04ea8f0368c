-- ===== src/Store.antt =====
-- services/map_query_api/main.cpp: `MapQueryStore`, the queries that it sends and the snapshots that it
-- makes of the answers.
pub mod Sql
pub mod Snapshots
pub mod History
