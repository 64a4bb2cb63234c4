-- ===== src/Sending/Replies.antt =====
-- Acknowledgements that go out: enet_protocol_send_acknowledgements of src/protocol.c.
pub mod Conservation
use enet_revamp.Base.{
  ℕ, ◌+◌, Bool, true, false, ◌||◌, ◌==◌, leb, ltb, if◌then◌else◌, Option, none, List, [], ◌∷◌,
  length, u16, sub64,
}
use enet_revamp.Protocol.{Protocol, Body, kind}
use enet_revamp.Protocol.Command
use enet_revamp.State.{Acknowledgement, Peer, Session, PeerState}
use enet_revamp.Session.{with_peer}
use enet_revamp.Handle.States.{dispatch_state}
use enet_revamp.Sending.Datagram.{Part, Datagram, buffer_maximum, add_part, has_no_command}

-- There is no room for another acknowledgement of 8 bytes.
unfoldable pub is_full : ℕ → Datagram → Bool
is_full mtu d =
    has_no_command d || (leb buffer_maximum d.buffer_count || ltb (sub64 mtu d.packet_size) 8)

-- The command that answers a received one.
abbrev pub reply : Acknowledgement → Protocol
reply a = record {
  header = record {
    command = Command.acknowledge;
    channel_id = a.command.header.channel_id;
    reliable_sequence_number = a.command.header.reliable_sequence_number;
  };
  body = Body.acknowledge (record {
    received_reliable_sequence_number = a.command.header.reliable_sequence_number;
    received_sent_time = u16 a.sent_time;
  });
}

-- The acknowledgement of a DISCONNECT command ends the connection.
unfoldable pub end_if_disconnect : Acknowledgement → Session → Session
unfolding dispatch_state
end_if_disconnect a s =
    if kind a.command.header.command == Command.disconnect
    then dispatch_state s PeerState.zombie
    else s

abbrev pub with_acknowledgements : Session → List Acknowledgement → Session
with_acknowledgements s left = with_peer s (record (s.peer) { acknowledgements = left })

-- The loop over the acknowledgements.
unfoldable pub reply_all : List Acknowledgement → Session → Datagram → Session × Datagram
unfolding is_full end_if_disconnect
reply_all [] s d = (with_acknowledgements s [], d)
reply_all (a ∷ rest) s d =
    let next =
      reply_all rest (end_if_disconnect a s)
        (add_part (record { command = reply a; contents = none }) 1 8 d) in
    if is_full s.peer.mtu d
    then (with_peer s (record (s.peer) { acknowledgements = a ∷ rest; continue_sending = true }), d)
    else next

-- enet_protocol_send_acknowledgements.
unfoldable pub send_acknowledgements : Session → Datagram → Session × Datagram
unfolding reply_all
send_acknowledgements s d = reply_all s.peer.acknowledgements s d
