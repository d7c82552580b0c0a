-- ===== src/Vita49.antt =====
-- packages/libfers/src/serial/vita49: receiver output as a VITA 49.2 packet stream over UDP.
pub mod Types
pub mod Timestamp
pub mod Writer
pub mod Descriptor
pub mod Metadata
pub mod Serializer
pub mod ContextBuilder
pub mod Packetizer
pub mod Registry
pub mod Sender
pub mod Sink
