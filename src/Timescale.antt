-- ===== src/Timescale.antt =====
-- common/timescale: the region queues, the batch writer and the async writer over them.
pub mod RegionQueue
pub mod BatchWriter
pub mod AsyncWriter
pub mod Sql
pub mod Hazard
pub mod Flush
