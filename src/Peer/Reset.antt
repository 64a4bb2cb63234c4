-- ===== src/Peer/Reset.antt =====
-- Connection counters and the reset of a peer: enet_peer_on_connect, enet_peer_on_disconnect,
-- enet_peer_reset, enet_peer_ping_interval and enet_peer_timeout of src/peer.c.
pub mod DispatchQueue
use enet_revamp.Base.{ℕ, ◌+◌, Bool, true, false, not, ◌==◌, if◌then◌else◌, List, [], u64, sub64}
use enet_revamp.Protocol.{maximum_peer_id, maximum_window_size}
use enet_revamp.State.{Peer, Host, Session, PeerState, is_connected, disconnected}
use enet_revamp.Session.{with_peer, with_host}
use enet_revamp.Peer.Queues.{reset_queues}

abbrev limited : Peer → ℕ
limited p = if p.incoming_bandwidth == 0 then 0 else 1

-- enet_peer_on_connect.
unfoldable pub on_connect : Session → Session
on_connect s =
    if is_connected s.peer.state
    then s
    else with_host s (record (s.host) {
      bandwidth_limited_peers = u64 (s.host.bandwidth_limited_peers + limited s.peer);
      connected_peers = u64 (s.host.connected_peers + 1);
    })

-- enet_peer_on_disconnect.
unfoldable pub on_disconnect : Session → Session
on_disconnect s =
    if is_connected s.peer.state
    then with_host s (record (s.host) {
      bandwidth_limited_peers = sub64 s.host.bandwidth_limited_peers (limited s.peer);
      connected_peers = sub64 s.host.connected_peers 1;
    })
    else s

-- The defaults of include/enet/enet.h that a reset restores.
abbrev pub default_round_trip_time : ℕ
default_round_trip_time = 500

abbrev pub default_packet_throttle : ℕ
default_packet_throttle = 32

abbrev pub packet_throttle_scale : ℕ
packet_throttle_scale = 32

abbrev pub packet_throttle_interval : ℕ
packet_throttle_interval = 5000

abbrev pub default_ping_interval : ℕ
default_ping_interval = 500

abbrev pub default_timeout_limit : ℕ
default_timeout_limit = 32

abbrev pub default_timeout_minimum : ℕ
default_timeout_minimum = 5000

abbrev pub default_timeout_maximum : ℕ
default_timeout_maximum = 30000

-- The assignments of enet_peer_reset; `flags = 0` clears both flags.
abbrev pub reset_fields : ℕ → Peer → Peer
reset_fields mtu p = record p {
  outgoing_peer_id = maximum_peer_id;
  connect_id = 0;
  state = disconnected;
  incoming_bandwidth = 0;
  outgoing_bandwidth = 0;
  incoming_bandwidth_throttle_epoch = 0;
  outgoing_bandwidth_throttle_epoch = 0;
  incoming_data_total = 0;
  outgoing_data_total = 0;
  last_send_time = 0;
  last_receive_time = 0;
  next_timeout = 0;
  earliest_timeout = 0;
  packet_loss_epoch = 0;
  packets_sent = 0;
  packets_lost = 0;
  packet_loss = 0;
  packet_loss_variance = 0;
  packet_throttle = default_packet_throttle;
  packet_throttle_limit = packet_throttle_scale;
  packet_throttle_counter = 0;
  packet_throttle_epoch = 0;
  packet_throttle_acceleration = 2;
  packet_throttle_deceleration = 2;
  packet_throttle_interval = packet_throttle_interval;
  ping_interval = default_ping_interval;
  timeout_limit = default_timeout_limit;
  timeout_minimum = default_timeout_minimum;
  timeout_maximum = default_timeout_maximum;
  last_round_trip_time = default_round_trip_time;
  lowest_round_trip_time = default_round_trip_time;
  last_round_trip_time_variance = 0;
  highest_round_trip_time_variance = 0;
  round_trip_time = default_round_trip_time;
  round_trip_time_variance = 0;
  mtu = mtu;
  reliable_data_in_transit = 0;
  outgoing_reliable_sequence_number = 0;
  window_size = maximum_window_size;
  incoming_unsequenced_group = 0;
  outgoing_unsequenced_group = 0;
  event_data = 0;
  total_waiting_data = 0;
  needs_dispatch = false;
  continue_sending = false;
  unsequenced_window = λ _. false;
}

-- enet_peer_reset. As in the source, the flags are cleared before the queues are emptied.
unfoldable pub reset : Session → Session
unfolding on_disconnect reset_queues
reset s = let t = on_disconnect s in reset_queues (with_peer t (reset_fields t.host.mtu t.peer))

-- enet_peer_ping_interval and enet_peer_timeout: zero stands for the default.
unfoldable pub ping_interval : Peer → ℕ → Peer
ping_interval p interval = record p {
  ping_interval = if interval == 0 then default_ping_interval else interval;
}

unfoldable pub timeout : Peer → ℕ → ℕ → ℕ → Peer
timeout p limit minimum maximum = record p {
  timeout_limit = if limit == 0 then default_timeout_limit else limit;
  timeout_minimum = if minimum == 0 then default_timeout_minimum else minimum;
  timeout_maximum = if maximum == 0 then default_timeout_maximum else maximum;
}
