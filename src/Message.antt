-- ===== src/Message.antt =====
-- saltyrtc/server/message.py: the nonce, the payloads, and the packing and unpacking of messages.
pub mod Nonce
pub mod Library
pub mod Payload
pub mod Incoming
pub mod Guarantees
pub mod Outgoing
pub mod Freshness
pub mod Tests
