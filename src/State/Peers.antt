-- ===== src/State/Peers.antt =====
-- Channels and peers: ENetChannel, ENetPeerState and ENetPeer of include/enet/enet.h.
use enet_revamp.Base.{ℕ, Bool, ◌==◌, ◌||◌, List, []}
use enet_revamp.State.Queued.{Acknowledgement, OutgoingCommand, IncomingCommand}

-- ENetChannel. `used_reliable_windows` is a 16-bit set, `reliable_windows` an array of 16.
pub record Channel : Type 0 where
  pub outgoing_reliable_sequence_number : ℕ
  pub outgoing_unreliable_sequence_number : ℕ
  pub used_reliable_windows : ℕ
  pub reliable_windows : ℕ → ℕ
  pub incoming_reliable_sequence_number : ℕ
  pub incoming_unreliable_sequence_number : ℕ
  pub incoming_reliable_commands : List IncomingCommand
  pub incoming_unreliable_commands : List IncomingCommand

-- A channel as enet_host_connect and enet_protocol_handle_connect set it up.
abbrev pub new_channel : Channel
new_channel = record {
  outgoing_reliable_sequence_number = 0;
  outgoing_unreliable_sequence_number = 0;
  used_reliable_windows = 0;
  reliable_windows = λ _. 0;
  incoming_reliable_sequence_number = 0;
  incoming_unreliable_sequence_number = 0;
  incoming_reliable_commands = [];
  incoming_unreliable_commands = [];
}

-- ENetPeerState.
pub data PeerState : Type 0 where
  disconnected connecting acknowledging_connect connection_pending connection_succeeded : PeerState
  connected disconnect_later disconnecting acknowledging_disconnect zombie : PeerState

-- The number of a state, by which the source compares states.
abbrev pub rank : PeerState → ℕ
rank disconnected = 0
rank connecting = 1
rank acknowledging_connect = 2
rank connection_pending = 3
rank connection_succeeded = 4
rank connected = 5
rank disconnect_later = 6
rank disconnecting = 7
rank acknowledging_disconnect = 8
rank zombie = 9

abbrev pub is_state : PeerState → PeerState → Bool
is_state s t = rank s == rank t

-- `state == CONNECTED || state == DISCONNECT_LATER`, the test that most handlers begin with.
abbrev pub is_connected : PeerState → Bool
is_connected s = is_state s connected || is_state s disconnect_later

-- ENetAddress.
pub record Address : Type 0 where
  pub host : ℕ
  pub port : ℕ

-- ENetPeer. The two bits of `flags` are `needs_dispatch` and `continue_sending`; the array of
-- `unsequencedWindow` is `unsequenced_window`, its bit i % 32 of word i / 32 at i. `channels` is []
-- for NULL. The fields that the library never reads (`data`, `reserved`) are left out, and the
-- pointer `host` is the other half of a `Session`.
pub record Peer : Type 0 where
  pub outgoing_peer_id : ℕ
  pub incoming_peer_id : ℕ
  pub connect_id : ℕ
  pub outgoing_session_id : ℕ
  pub incoming_session_id : ℕ
  pub address : Address
  pub state : PeerState
  pub channels : List Channel
  pub channel_count : ℕ
  pub incoming_bandwidth : ℕ
  pub outgoing_bandwidth : ℕ
  pub incoming_bandwidth_throttle_epoch : ℕ
  pub outgoing_bandwidth_throttle_epoch : ℕ
  pub incoming_data_total : ℕ
  pub outgoing_data_total : ℕ
  pub last_send_time : ℕ
  pub last_receive_time : ℕ
  pub next_timeout : ℕ
  pub earliest_timeout : ℕ
  pub packet_loss_epoch : ℕ
  pub packets_sent : ℕ
  pub packets_lost : ℕ
  pub packet_loss : ℕ
  pub packet_loss_variance : ℕ
  pub packet_throttle : ℕ
  pub packet_throttle_limit : ℕ
  pub packet_throttle_counter : ℕ
  pub packet_throttle_epoch : ℕ
  pub packet_throttle_acceleration : ℕ
  pub packet_throttle_deceleration : ℕ
  pub packet_throttle_interval : ℕ
  pub ping_interval : ℕ
  pub timeout_limit : ℕ
  pub timeout_minimum : ℕ
  pub timeout_maximum : ℕ
  pub last_round_trip_time : ℕ
  pub lowest_round_trip_time : ℕ
  pub last_round_trip_time_variance : ℕ
  pub highest_round_trip_time_variance : ℕ
  pub round_trip_time : ℕ
  pub round_trip_time_variance : ℕ
  pub mtu : ℕ
  pub window_size : ℕ
  pub reliable_data_in_transit : ℕ
  pub outgoing_reliable_sequence_number : ℕ
  pub acknowledgements : List Acknowledgement
  pub sent_reliable_commands : List OutgoingCommand
  pub outgoing_send_reliable_commands : List OutgoingCommand
  pub outgoing_commands : List OutgoingCommand
  pub dispatched_commands : List IncomingCommand
  pub needs_dispatch : Bool
  pub continue_sending : Bool
  pub incoming_unsequenced_group : ℕ
  pub outgoing_unsequenced_group : ℕ
  pub unsequenced_window : ℕ → Bool
  pub event_data : ℕ
  pub total_waiting_data : ℕ
