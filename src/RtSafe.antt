-- ===== src/RtSafe.antt =====
-- The real-time components of common/rt_safe.
pub mod RingBuffer
pub mod BoundedQueue
pub mod FlowController
