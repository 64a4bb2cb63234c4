-- ===== src/Handle/Acknowledge.antt =====
-- An acknowledgement that arrives: enet_protocol_handle_acknowledge of src/protocol.c. The time at
-- which the acknowledged command was sent comes back as 16 bits, from which the handler works out
-- the round trip time, its variance and the packet throttle.
pub mod Counts
pub mod Machine
pub mod RoundTrip
use enet_revamp.Base.{
  ℕ, ◌+◌, ◌-◌, ◌*◌, ◌/◌, ◌%◌, Bool, true, false, not, ◌&&◌, ◌||◌, ◌==◌, ltb, leb, if◌then◌else◌,
  Option, u32, sub32, enet_max,
}
use enet_revamp.Time.{time_less, time_difference}
use enet_revamp.Protocol.{Protocol}
use enet_revamp.Protocol.Command
use enet_revamp.State.{Peer, Host, Session, PeerState, is_state, Event}
use enet_revamp.Session.{with_peer}
use enet_revamp.Peer.Throttle.{throttle}
use enet_revamp.Handle.States.{notify_connect, notify_disconnect}
use enet_revamp.Handle.Sent.{remove_sent_reliable_command, disconnect_if_done}

-- What a handler returns that may report an event: true for 0, false for -1.
pub record Outcome : Type 0 where
  pub accepted : Bool
  pub event : Option Event
  pub session : Session

abbrev pub outcome : Bool → Option Event × Session → Outcome
outcome accepted (event, s) = record { accepted = accepted; event = event; session = s }

-- The 32-bit time of which the 16-bit `received` is the lower half, at or before `now`.
unfoldable pub full_sent_time : ℕ → ℕ → ℕ
full_sent_time now received =
    let t = now / 65536 * 65536 + received in
    if ltb (now / 32768 % 2) (t / 32768 % 2) then sub32 t 65536 else t

-- The round trip time and its variance, smoothed by a new sample.
unfoldable pub smooth : ℕ → Peer → Peer
smooth sample p =
    let calmer = p.round_trip_time_variance - p.round_trip_time_variance / 4 in
    if leb p.round_trip_time sample
    then record p {
      round_trip_time_variance = u32 (calmer + (sample - p.round_trip_time) / 4);
      round_trip_time = u32 (p.round_trip_time + (sample - p.round_trip_time) / 8);
    }
    else record p {
      round_trip_time_variance = u32 (calmer + (p.round_trip_time - sample) / 4);
      round_trip_time = p.round_trip_time - (p.round_trip_time - sample) / 8;
    }

-- The first sample of a connection is taken as it is.
unfoldable pub measure : ℕ → Peer → Peer
unfolding throttle smooth
measure sample p =
    if ltb 0 p.last_receive_time
    then smooth sample (throttle p sample).1
    else record p { round_trip_time = sample; round_trip_time_variance = u32 (sample + 1) / 2 }

-- The extremes since the throttle epoch began.
unfoldable pub note_extremes : Peer → Peer
note_extremes p = record p {
  lowest_round_trip_time =
      if ltb p.round_trip_time p.lowest_round_trip_time
      then p.round_trip_time
      else p.lowest_round_trip_time;
  highest_round_trip_time_variance =
      if ltb p.highest_round_trip_time_variance p.round_trip_time_variance
      then p.round_trip_time_variance
      else p.highest_round_trip_time_variance;
}

-- A new throttle epoch, when there is none or the interval has passed.
unfoldable pub renew_epoch : ℕ → Peer → Peer
unfolding time_difference
renew_epoch now p =
    if p.packet_throttle_epoch == 0
      || leb p.packet_throttle_interval (time_difference now p.packet_throttle_epoch)
    then record p {
      last_round_trip_time = p.lowest_round_trip_time;
      last_round_trip_time_variance = enet_max p.highest_round_trip_time_variance 1;
      lowest_round_trip_time = p.round_trip_time;
      highest_round_trip_time_variance = p.round_trip_time_variance;
      packet_throttle_epoch = now;
    }
    else p

-- The whole update of a peer by a sample.
unfoldable pub take_sample : ℕ → ℕ → Peer → Peer
unfolding measure note_extremes renew_epoch
take_sample now sample p = record (renew_epoch now (note_extremes (measure sample p))) {
  last_receive_time = enet_max now 1;
  earliest_timeout = 0;
}

abbrev keep_event : Option Event → Session → Option Event × Session
keep_event event s = (event, s)

-- The `switch` on the state, for the number of the command that was removed.
unfoldable pub answer : (Host → Host) → Option Event → ℕ × Session → Outcome
unfolding notify_connect notify_disconnect disconnect_if_done
answer flush event (number, s) =
    if is_state s.peer.state PeerState.acknowledging_connect
    then (if number == Command.verify_connect
        then outcome true (notify_connect s event)
        else outcome false (keep_event event s))
    else if is_state s.peer.state PeerState.disconnecting
    then (if number == Command.disconnect
        then outcome true (notify_disconnect s event)
        else outcome false (keep_event event s))
    else outcome true (keep_event event (disconnect_if_done flush s))

abbrev pub is_gone : PeerState → Bool
is_gone st = is_state st PeerState.disconnected || is_state st PeerState.zombie

-- enet_protocol_handle_acknowledge, for the channel of the acknowledgement, the sequence number it
-- acknowledges and the time it gives back.
unfoldable pub handle_acknowledge : (Host → Host) → Option Event → Session → ℕ → ℕ → ℕ → Outcome
unfolding time_less full_sent_time take_sample remove_sent_reliable_command answer time_difference
handle_acknowledge flush event s channel_id number received =
    let now = s.host.service_time in
    let sent = full_sent_time now received in
    let sample = enet_max (time_difference now sent) 1 in
    if is_gone s.peer.state
    then outcome true (keep_event event s)
    else if time_less now sent
    then outcome true (keep_event event s)
    else answer flush event (
        remove_sent_reliable_command (with_peer s (take_sample now sample s.peer)) number
          channel_id)
