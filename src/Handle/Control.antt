-- ===== src/Handle/Control.antt =====
-- Handlers that keep the parameters of a connection or end it: enet_protocol_handle_ping,
-- enet_protocol_handle_bandwidth_limit, enet_protocol_handle_throttle_configure and
-- enet_protocol_handle_disconnect of src/protocol.c. The first component of a result is true for 0
-- and false for -1. The argument is the body of the command, in host order.
pub mod Window
use enet_revamp.Base.{
  ℕ, ◌+◌, ◌-◌, ◌*◌, ◌/◌, Bool, true, false, not, ◌&&◌, ◌||◌, ◌==◌, ltb, leb, if◌then◌else◌, u64,
  sub64, enet_max, enet_min,
}
use enet_revamp.Protocol.{
  BandwidthLimit, ThrottleConfigure, wants_acknowledge, minimum_window_size, maximum_window_size,
}
use enet_revamp.State.{Peer, Host, Session, PeerState, is_state, is_connected}
use enet_revamp.Session.{with_peer, with_host}
use enet_revamp.Peer.Queues.{reset_queues}
use enet_revamp.Peer.Reset.{reset}
use enet_revamp.Handle.States.{change_state, dispatch_state, recalculate, with_event_data}

-- enet_protocol_handle_ping.
unfoldable pub handle_ping : Session → Bool
handle_ping s = is_connected s.peer.state

-- ENET_PEER_WINDOW_SIZE_SCALE.
abbrev pub window_size_scale : ℕ
window_size_scale = 65536

-- `ENET_PROTOCOL_MINIMUM_WINDOW_SIZE` for every 64 KiB of bandwidth.
abbrev pub scaled_window : ℕ → ℕ
scaled_window bandwidth = bandwidth / window_size_scale * minimum_window_size

-- The clamp that the source writes out wherever it sets a window size.
abbrev pub clamp_window : ℕ → ℕ
clamp_window w =
    if ltb w minimum_window_size
    then minimum_window_size
    else if ltb maximum_window_size w
    then maximum_window_size
    else w

-- The window size for a peer's incoming bandwidth and the outgoing bandwidth of the host; zero
-- means without limit.
unfoldable pub window_for : ℕ → ℕ → ℕ
window_for incoming outgoing = clamp_window (
    if incoming == 0 && outgoing == 0
    then maximum_window_size
    else if incoming == 0 || outgoing == 0
    then scaled_window (enet_max incoming outgoing)
    else scaled_window (enet_min incoming outgoing))

abbrev limit_one : ℕ → ℕ
limit_one bandwidth = if bandwidth == 0 then 0 else 1

-- enet_protocol_handle_bandwidth_limit.
unfoldable pub handle_bandwidth_limit : Session → BandwidthLimit → Bool × Session
unfolding window_for
handle_bandwidth_limit s b = if not (is_connected s.peer.state) then (false, s) else (
  true,
  record {
    host = record (s.host) {
      bandwidth_limited_peers = u64 (
          sub64 s.host.bandwidth_limited_peers (limit_one s.peer.incoming_bandwidth)
          + limit_one b.incoming_bandwidth);
    };
    peer = record (s.peer) {
      incoming_bandwidth = b.incoming_bandwidth;
      outgoing_bandwidth = b.outgoing_bandwidth;
      window_size = window_for b.incoming_bandwidth s.host.outgoing_bandwidth;
    };
  },
)

-- enet_protocol_handle_throttle_configure.
unfoldable pub handle_throttle_configure : Session → ThrottleConfigure → Bool × Session
handle_throttle_configure s b = if not (is_connected s.peer.state) then (false, s) else (
  true,
  with_peer s (record (s.peer) {
    packet_throttle_interval = b.packet_throttle_interval;
    packet_throttle_acceleration = b.packet_throttle_acceleration;
    packet_throttle_deceleration = b.packet_throttle_deceleration;
  }),
)

-- A connection that one side has not reported yet, or that this side is closing already.
abbrev pub ends_unseen : PeerState → Bool
ends_unseen st =
    is_state st PeerState.connection_succeeded
    || (is_state st PeerState.disconnecting || is_state st PeerState.connecting)

-- The branches of enet_protocol_handle_disconnect on the state, for the header byte `command`.
unfoldable pub leave : Session → ℕ → Session
unfolding dispatch_state change_state reset
leave s command =
    if ends_unseen s.peer.state
    then dispatch_state s PeerState.zombie
    else if not (is_connected s.peer.state)
    then reset (if is_state s.peer.state PeerState.connection_pending then recalculate s else s)
    else if wants_acknowledge command
    then change_state s PeerState.acknowledging_disconnect
    else dispatch_state s PeerState.zombie

abbrev pub has_left : PeerState → Bool
has_left st =
    is_state st PeerState.disconnected
    || (is_state st PeerState.zombie || is_state st PeerState.acknowledging_disconnect)

-- enet_protocol_handle_disconnect, for the command byte and the data of the command.
unfoldable pub handle_disconnect : Session → ℕ → ℕ → Bool × Session
unfolding leave reset_queues
handle_disconnect s command user_data =
    let t = leave (reset_queues s) command in
    if has_left s.peer.state then (true, s) else (
      true,
      if is_state t.peer.state PeerState.disconnected then t else with_event_data t user_data,
    )
