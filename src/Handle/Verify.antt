-- ===== src/Handle/Verify.antt =====
-- The other side accepts a connection: enet_protocol_handle_verify_connect of src/protocol.c.
pub mod Bounds
pub mod Machine
use enet_revamp.Base.{ℕ, Bool, true, false, not, ◌&&◌, ◌||◌, ◌==◌, ltb, leb, if◌then◌else◌, Option}
use enet_revamp.Protocol.{
  VerifyConnect, minimum_mtu, maximum_mtu, minimum_channel_count, maximum_channel_count,
}
use enet_revamp.State.{Peer, Session, PeerState, is_state, Event}
use enet_revamp.Session.{with_peer}
use enet_revamp.Handle.States.{dispatch_state, notify_connect, with_event_data}
use enet_revamp.Handle.Sent.{remove_sent_reliable_command}
use enet_revamp.Handle.Control.{clamp_window}
use enet_revamp.Handle.Acknowledge.{Outcome, outcome}

abbrev pub clamp_mtu : ℕ → ℕ
clamp_mtu m =
    if ltb m minimum_mtu then minimum_mtu else if ltb maximum_mtu m then maximum_mtu else m

-- The answer fits the request that this peer sent.
unfoldable pub is_expected : Peer → VerifyConnect → Bool
is_expected p v = not (
    ltb v.channel_count minimum_channel_count
    || (ltb maximum_channel_count v.channel_count
        || (not (v.packet_throttle_interval == p.packet_throttle_interval)
            || (not (v.packet_throttle_acceleration == p.packet_throttle_acceleration)
                || (not (v.packet_throttle_deceleration == p.packet_throttle_deceleration)
                    || not (v.connect_id == p.connect_id))))))

abbrev pub lower : ℕ → ℕ → ℕ
lower new old = if ltb new old then new else old

-- The parameters that both sides use from here on: none exceeds what was asked for.
abbrev pub agree : VerifyConnect → Peer → Peer
agree v p = record p {
  channel_count = lower v.channel_count p.channel_count;
  outgoing_peer_id = v.outgoing_peer_id;
  incoming_session_id = v.incoming_session_id;
  outgoing_session_id = v.outgoing_session_id;
  mtu = lower (clamp_mtu v.mtu) p.mtu;
  window_size = lower (clamp_window v.window_size) p.window_size;
  incoming_bandwidth = v.incoming_bandwidth;
  outgoing_bandwidth = v.outgoing_bandwidth;
}

-- enet_protocol_handle_verify_connect.
unfoldable pub handle_verify_connect : Option Event → Session → VerifyConnect → Outcome
unfolding is_expected dispatch_state remove_sent_reliable_command notify_connect
handle_verify_connect event s v =
    let t = (remove_sent_reliable_command s 1 0xFF).1 in
    if not (is_state s.peer.state PeerState.connecting)
    then outcome true (event, s)
    else if not (is_expected s.peer v)
    then outcome false (event, dispatch_state (with_event_data s 0) PeerState.zombie)
    else outcome true (notify_connect (with_peer t (agree v t.peer)) event)
