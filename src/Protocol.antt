-- ===== src/Protocol.antt =====
-- protocol.c: how a client and the server pack values into messages, read them off a socket, and queue
-- events.
pub mod Packet
pub mod Socket
pub mod Receive
pub mod Events
mod Tests
