-- ===== src/Sending.antt =====
-- Filling the datagrams of a host: enet_protocol_send_acknowledgements, enet_protocol_check_timeouts
-- and enet_protocol_check_outgoing_commands of src/protocol.c. `Datagram` is the datagram being
-- filled, `Windows` the bookkeeping of an acknowledged command; `Replies`, `Timeouts` and `Fill`
-- hold the three functions, and below them stands what is proved of them.
pub mod Datagram
pub mod Replies
pub mod Timeouts
pub mod Windows
pub mod Fill
