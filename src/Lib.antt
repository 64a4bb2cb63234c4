-- ===== src/Lib.antt =====
-- A verification library for ENet, a reliable transport over UDP: a host keeps an array of peers,
-- each peer sends and receives packets on channels, reliable commands are numbered, acknowledged
-- and put back in order, unreliable ones are handed on if they are not late.
--
-- The parts of the program and the files that model them:
--   include/enet/time.h, utility.h, types.h   Time, Base/Words: the wrapping clock and C integers.
--   include/enet/protocol.h                   Protocol, Protocol/Command: commands and constants,
--                                             also the command sizes of src/protocol.c;
--                                             Protocol/Decoding: commands read from bytes.
--   include/enet/enet.h                       State/Queued, State/Peers, State/Hosts: packets,
--                                             queued commands, channels, peers, hosts, events.
--   src/packet.c, src/callbacks.c             Packet: packets in memory and their references;
--                                             Packet/Checksum: enet_crc32.
--   src/peer.c                                Peer and its children. Outgoing queues commands to
--                                             send, Queues empties them, Reset resets a peer,
--                                             Throttle, Send (enet_peer_send, enet_peer_receive),
--                                             Dispatch (the two enet_peer_dispatch_* functions),
--                                             Incoming (enet_peer_queue_incoming_command),
--                                             Disconnect.
--   src/protocol.c                            Handle and its children: States (change_state,
--                                             dispatch_state, notify_connect, notify_disconnect),
--                                             Sent (acknowledged commands), and the handlers of
--                                             Control (PING, BANDWIDTH_LIMIT, THROTTLE_CONFIGURE,
--                                             DISCONNECT), Acknowledge, Verify, Connect, Send (whole
--                                             packets) and Fragment (packets in fragments).
--                                             Sending: Replies (send_acknowledgements), Timeouts
--                                             (check_timeouts), Windows and Fill
--                                             (check_outgoing_commands), on a Datagram.
--                                             Service: Dispatch (dispatch_incoming_commands), Wire
--                                             and Send (send_outgoing_commands, enet_host_flush),
--                                             Arrival and Receive (handle_incoming_commands),
--                                             Loop (receive_incoming_commands, enet_host_service
--                                             and enet_host_check_events).
--   src/host.c                                Host: random numbers, connecting, broadcast, limits;
--                                             Service/Bandwidth: enet_host_bandwidth_throttle.
--   src/list.c, include/enet/list.h           LinkedList: the pointers of the queues.
--
-- State. A function of src/peer.c has a pointer to a peer, whose field `host` points back to the
-- host. The model passes a `Session`, the host with the peer that is being worked on; `Session.focus`
-- takes the peer out of the host's array by its index and `Session.settle` writes it back. A queue
-- that the source links through the commands is a list of commands; a packet, which commands and
-- the application share, is an address in a `Memory` with its reference count. The memory also
-- stands for the application's malloc, whose answer to the n-th request is `grants n`; so every
-- function that allocates is modelled with its failure paths. What enet_host_flush does is an
-- argument of the functions that call it.
--
-- The dispatch queue is a list of peer indices, with a flag that tells when a peer has been linked
-- into it twice and the list no longer says what the pointers do.
--
-- Numbers are natural numbers with the wrap-around of their C type written out (u8, u16, u32, u64,
-- sub16, sub32, sub64); size_t has 64 bits. Fields hold host-order values. A flag that is or-ed into
-- a byte without it is added.
--
-- Fuel. The loop of enet_peer_send that cuts a packet has one round more than the packet has bytes,
-- which is enough since a round with a positive payload size takes at least one byte. The loop that
-- fills a datagram has a round for each waiting command, since each round takes one from the queues.
-- The loop over the commands of a datagram that arrived has a round for each byte, since each command
-- moves it forward. The two loops of enet_host_bandwidth_throttle have one pass more than there are
-- peers, since each pass but the last stamps a peer. enet_list_size counts at most as many nodes as
-- its fuel says, and the passes of enet_protocol_send_outgoing_commands and the rounds of
-- enet_host_service, on whose number the source has no bound, take theirs as an argument. All other
-- loops are recursion on a list or a count.
--
-- The outside. The socket, the compressor and enet_host_flush are arguments of the functions that
-- call them, and so is the clock of enet_host_bandwidth_throttle. For enet_host_service the answers
-- of the clock, of enet_socket_receive and of the wait are functions of the number of the call. A
-- datagram that goes out is a record of its parts and its header; one that comes in is a sequence of
-- bytes, and a number in it that the source does not convert is read as on a machine that stores the
-- lowest byte first.
--
-- Not modelled: the sockets (src/unix.c, src/win32.c), the encoding of datagrams as bytes, the
-- creation of hosts in src/host.c, and the range coder of src/compress.c.
pub mod Base
pub mod Time
pub mod Protocol
pub mod State
pub mod Packet
pub mod Session
pub mod Peer
pub mod Handle
pub mod LinkedList
pub mod Sending
pub mod Service
pub mod Host
mod Examples
