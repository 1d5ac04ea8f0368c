-- ===== src/Tests.antt =====
-- The theorems applied at concrete inputs.
mod Instances
mod RingExamples
mod QueueExamples
mod PacketExamples
mod TextExamples
mod ApiExamples
mod CollectorExamples
