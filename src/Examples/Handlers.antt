-- ===== src/Examples/Handlers.antt =====
-- Examples of the handlers of incoming commands.
use enet_revamp.Base.{
  ◌⊎◌, ◌+◌, ◌-◌, ◌/◌, ◌<◌, ◌≤◌, ◌≡◌, ◌≢◌, arith, none, some, [], ◌∷◌, u16, sub32, inl, refl,
}
use enet_revamp.Protocol.{VerifyConnect, Connect, Body, protocol}
use enet_revamp.Protocol.Command
use enet_revamp.State.{Peer, Session, OutgoingCommand, connecting, disconnecting}
use enet_revamp.Time.{time_difference}
use enet_revamp.Peer.Outgoing.{outgoing}
use enet_revamp.Handle.Acknowledge.{full_sent_time, smooth, handle_acknowledge}
use enet_revamp.Handle.Acknowledge.RoundTrip.{full_sent_time-recovers, smooth_bounds}
use enet_revamp.Handle.Acknowledge.Machine.{handle_acknowledge-IsNext}
use enet_revamp.Handle.Acknowledge.Counts.{handle_acknowledge-IsCounted}
use enet_revamp.Handle.Control.{window_for, handle_disconnect}
use enet_revamp.Handle.Control.Window.{window_for_bounds, next_session_fresh}
use enet_revamp.Handle.Connect.{next_session, handle_connect}
use enet_revamp.Handle.Connect.Duplicates.{handle_connect_once, twins}
use enet_revamp.Handle.States.Counts.{IsCounted, handle_disconnect-IsCounted}
use enet_revamp.Handle.States.Machine.{IsNext, handle_disconnect-IsNext}
use enet_revamp.Handle.Verify.{handle_verify_connect}
use enet_revamp.Handle.Verify.Machine.{handle_verify_connect-IsNext}
use enet_revamp.Handle.Verify.Bounds.{handle_verify_connect-IsCounted, handle_verify_connect_bounds}
use enet_revamp.Examples.Data.{blank_peer, blank_event, blank_host, session_of}

full_sent_time-recovers_example :
    (full_sent_time 70 (u16 (sub32 70 6000)) ≡ sub32 70 6000)
    × (time_difference 70 (full_sent_time 70 (u16 (sub32 70 6000))) ≡ 6000)
full_sent_time-recovers_example = full_sent_time-recovers 70 6000 (omega arith) (omega arith)

smooth_bounds_example :
    (100 ≤ (smooth 180 blank_peer).round_trip_time)
    × ((smooth 180 blank_peer).round_trip_time ≤ 180)
    × (8 ≤ (smooth 180 blank_peer).round_trip_time_variance + 8 / 4)
    × ((smooth 180 blank_peer).round_trip_time_variance ≤ 8 + (180 - 100) / 4)
smooth_bounds_example = smooth_bounds blank_peer 180 (omega arith) (omega arith) (omega arith)

window_for_bounds_example :
    (4096 ≤ window_for 100000 0) × (window_for 100000 0 ≤ window_for 0 0) × (window_for 0 0 ≤ 65536)
window_for_bounds_example = window_for_bounds 100000 0 0 (inl refl)

next_session_fresh_example : (next_session 255 255 < 4) × (next_session 255 255 ≢ 255)
next_session_fresh_example = next_session_fresh 255 255

abbrev disconnect_sent : OutgoingCommand
disconnect_sent = outgoing (protocol (Command.disconnect + 128) 0xFF (Body.disconnect 0)) none 0 0

-- A peer that is closing, with its DISCONNECT command sent.
abbrev closing_peer : Peer
closing_peer = record blank_peer {
  state = disconnecting;
  sent_reliable_commands = disconnect_sent ∷ [];
}

handle_acknowledge-IsCounted_example :
    IsCounted
      (session_of closing_peer)
      (handle_acknowledge (λ h. h) (some blank_event) (session_of closing_peer) 0xFF 0 4000).session
handle_acknowledge-IsCounted_example =
    handle_acknowledge-IsCounted (λ h. h) (some blank_event) (session_of closing_peer) 0xFF 0 4000

handle_acknowledge-IsNext_example :
    IsNext closing_peer.state
      (handle_acknowledge
        (λ h. h)
        (some blank_event)
        (session_of closing_peer)
        0xFF
        0
        4000).session.peer.state
handle_acknowledge-IsNext_example =
    handle_acknowledge-IsNext (λ h. h) (some blank_event) (session_of closing_peer) 0xFF 0 4000

handle_disconnect-IsCounted_example :
    IsCounted (session_of blank_peer) (handle_disconnect (session_of blank_peer) 132 9).1
handle_disconnect-IsCounted_example = handle_disconnect-IsCounted (session_of blank_peer) 132 9

handle_disconnect-IsNext_example :
    IsNext blank_peer.state (handle_disconnect (session_of blank_peer) 132 9).1.peer.state
handle_disconnect-IsNext_example = handle_disconnect-IsNext (session_of blank_peer) 132 9

abbrev calling_peer : Peer
calling_peer = record blank_peer { state = connecting }

abbrev verification : VerifyConnect
verification = record {
  outgoing_peer_id = 3;
  incoming_session_id = 0;
  outgoing_session_id = 0;
  mtu = 100;
  window_size = 1;
  channel_count = 1;
  incoming_bandwidth = 5000;
  outgoing_bandwidth = 0;
  packet_throttle_interval = 5000;
  packet_throttle_acceleration = 2;
  packet_throttle_deceleration = 2;
  connect_id = 7;
}

handle_verify_connect-IsCounted_example :
    IsCounted
      (session_of calling_peer)
      (handle_verify_connect none (session_of calling_peer) verification).session
handle_verify_connect-IsCounted_example =
    handle_verify_connect-IsCounted none (session_of calling_peer) verification

abbrev verified : Session
verified = (handle_verify_connect none (session_of calling_peer) verification).session

handle_verify_connect_bounds_example :
    (576 ≤ verified.peer.mtu)
    × (verified.peer.mtu ≤ 1400)
    × (4096 ≤ verified.peer.window_size)
    × (verified.peer.window_size ≤ 65536)
    × (1 ≤ verified.peer.channel_count)
    × (verified.peer.channel_count ≤ 2)
handle_verify_connect_bounds_example =
    handle_verify_connect_bounds none (session_of calling_peer) verification (omega arith)
      (omega arith) (omega arith)

handle_verify_connect-IsNext_example :
    IsNext calling_peer.state
      (handle_verify_connect none (session_of calling_peer) verification).session.peer.state
handle_verify_connect-IsNext_example =
    handle_verify_connect-IsNext none (session_of calling_peer) verification

-- A request that repeats the connection of the peer in `blank_host`.
abbrev repeated : Connect
repeated = record {
  outgoing_peer_id = 0;
  incoming_session_id = 0;
  outgoing_session_id = 0;
  mtu = 1400;
  window_size = 65536;
  channel_count = 1;
  incoming_bandwidth = 0;
  outgoing_bandwidth = 0;
  packet_throttle_interval = 5000;
  packet_throttle_acceleration = 2;
  packet_throttle_deceleration = 2;
  connect_id = 7;
  user_data = 0;
}

handle_connect_once_example :
    (handle_connect blank_host repeated ≡ (none, blank_host))
    ⊎ (twins blank_host.received_address 7 blank_host.peers ≡ 0)
handle_connect_once_example = handle_connect_once blank_host repeated
