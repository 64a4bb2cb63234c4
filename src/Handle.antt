-- ===== src/Handle.antt =====
-- The commands that arrive from the other side: the handlers of src/protocol.c and the functions
-- they share. `States` changes the state of a peer and reports it, `Sent` takes acknowledged
-- commands out of the queues, `Control` holds the handlers that keep the connection's parameters or
-- end it, `Acknowledge`, `Verify` and `Connect` those of an acknowledgement, of a verified
-- connection and of a request to connect, `Send` those of whole packets and `Fragment` those of
-- packets in fragments. The children below them hold what they prove.
pub mod States
pub mod Sent
pub mod Control
pub mod Acknowledge
pub mod Verify
pub mod Connect
pub mod Send
pub mod Fragment
