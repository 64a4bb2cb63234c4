-- ===== src/Service.antt =====
-- The service of a host and its datagrams: enet_protocol_dispatch_incoming_commands of
-- src/protocol.c (`Dispatch`), enet_host_bandwidth_throttle of src/host.c (`Bandwidth`), and of
-- src/protocol.c enet_protocol_send_outgoing_commands (`Wire` and `Send`),
-- enet_protocol_handle_incoming_commands (`Arrival` and `Receive`) and enet_host_service with
-- enet_protocol_receive_incoming_commands (`Loop`), with what is proved of them below.
pub mod Dispatch
pub mod Bandwidth
pub mod Wire
pub mod Send
pub mod Arrival
pub mod Receive
pub mod Loop
