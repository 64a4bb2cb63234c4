-- ===== src/State/Hosts.antt =====
-- Hosts, events and sessions: ENetHost and ENetEvent of include/enet/enet.h.
use enet_revamp.Base.{ℕ, Bool, Option, List}
use enet_revamp.State.Queued.{Memory}
use enet_revamp.State.Peers.{Address, Peer}

-- ENetHost, less the socket and the buffers of a datagram in transit. `dispatch_queue` holds the
-- incoming_peer_id of the peers in it, which is their index in `peers`, as long as the links of the
-- queue are sound; `dispatch_sound` turns false for ever when a peer that stands in the queue is
-- linked into it again, after which no list describes it. `peerCount` is the length of `peers`. `checksum` is the callback of that name, none for NULL. `memory` is what the allocator
-- of src/callbacks.c manages.
pub record Host : Type 0 where
  pub address : Address
  pub incoming_bandwidth : ℕ
  pub outgoing_bandwidth : ℕ
  pub bandwidth_throttle_epoch : ℕ
  pub mtu : ℕ
  pub random_seed : ℕ
  pub recalculate_bandwidth_limits : Bool
  pub peers : List Peer
  pub channel_limit : ℕ
  pub service_time : ℕ
  pub dispatch_queue : List ℕ
  pub dispatch_sound : Bool
  pub total_queued : ℕ
  pub checksum : Option (List ℕ → ℕ)
  pub received_address : Address
  pub total_sent_data : ℕ
  pub total_sent_packets : ℕ
  pub total_received_data : ℕ
  pub total_received_packets : ℕ
  pub connected_peers : ℕ
  pub bandwidth_limited_peers : ℕ
  pub duplicate_peers : ℕ
  pub maximum_packet_size : ℕ
  pub maximum_waiting_data : ℕ
  pub memory : Memory

-- ENetEventType.
pub data EventType : Type 0 where
  no_event connect_event disconnect_event receive_event : EventType

-- ENetEvent; `peer` is the peer's index, none for NULL.
pub record Event : Type 0 where
  pub type : EventType
  pub peer : Option ℕ
  pub channel_id : ℕ
  pub data_value : ℕ
  pub packet : Option ℕ

-- A peer with the host that its `host` field points to. While a function works on the peer, `peer`
-- is its state and the entry of `host.peers` is out of date; see `Session.focus` and `Session.settle`.
pub record Session : Type 0 where
  pub host : Host
  pub peer : Peer
