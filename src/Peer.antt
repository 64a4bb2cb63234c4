-- ===== src/Peer.antt =====
-- The functions of src/peer.c. The children hold the definitions by topic (Outgoing, Queues, Reset,
-- Throttle, Send, Dispatch, Incoming, Disconnect) and, below them, what they prove.
pub mod Outgoing
pub mod Queues
pub mod Reset
pub mod Throttle
pub mod Send
pub mod Dispatch
pub mod Incoming
pub mod Disconnect
