-- ===== src/Protocol.antt =====
-- common/models and common/protocol: the weather packet, the envelope, and their JSON forms.
pub mod Packet
pub mod Envelope
