-- ===== src/Service/Dispatch.antt =====
-- Events for the application: enet_protocol_dispatch_incoming_commands of src/protocol.c.
use enet_revamp.Base.{
  ℕ, Bool, true, false, ◌||◌, if◌then◌else◌, Option, none, some, List, [], ◌∷◌, is_empty,
}
use enet_revamp.State.{
  Host, Session, PeerState, is_state, Event, EventType, connect_event, disconnect_event,
  receive_event,
}
use enet_revamp.Session.{focus, settle, with_peer, request_dispatch}
use enet_revamp.Peer.Send.{receive}
use enet_revamp.Peer.Reset.{reset}
use enet_revamp.Handle.States.{change_state, recalculate}

-- The event that a peer gives, with the session behind it, or none: the loop goes on.
pub data Turn : Type 0 where
  returns : Event → Session → Turn
  continues : Event → Session → Turn

abbrev announce : EventType → Session → Event → Event
announce type s e = record e {
  type = type;
  peer = some s.peer.incoming_peer_id;
  data_value = s.peer.event_data;
}

unfoldable pub give_connect : Session → Event → Turn
unfolding change_state
give_connect s e =
    let t = change_state s PeerState.connected in returns (announce connect_event t e) t

unfoldable pub give_disconnect : Session → Event → Turn
unfolding reset
give_disconnect s e = let t = recalculate s in returns (announce disconnect_event t e) (reset t)

-- A peer that still has packets to hand over enters the queue again, at its end.
unfoldable pub queue_again : Session → Session
unfolding request_dispatch
queue_again s = if is_empty s.peer.dispatched_commands then s else request_dispatch s

unfoldable pub give_packet : Event → Option (ℕ × ℕ) × Session → Turn
unfolding queue_again
give_packet e (none, s) = continues (record e { packet = none }) s
give_packet e (some (packet, channel_id), s) =
    returns
      (record e {
        type = receive_event;
        peer = some s.peer.incoming_peer_id;
        channel_id = channel_id;
        packet = some packet;
      })
      (queue_again s)

-- The `switch` on the state of the peer, which has left the queue.
unfoldable pub turn : Session → Event → Turn
unfolding give_connect give_disconnect give_packet receive
turn s e =
    let st = s.peer.state in
    if is_state st PeerState.connection_pending || is_state st PeerState.connection_succeeded
    then give_connect s e
    else if is_state st PeerState.zombie
    then give_disconnect s e
    else if is_state st PeerState.connected
    then if is_empty s.peer.dispatched_commands then continues e s else give_packet e (receive s)
    else continues e s

-- The peer leaves the queue, whose rest is `rest`.
abbrev pub without_request : List ℕ → Host → Host
without_request rest h = record h { dispatch_queue = rest }

-- The loop over the dispatch queue. A round that goes on leaves the rest of the queue as it is. An
-- entry that names no peer, which C cannot have, is passed over.
unfoldable pub dispatch_all : List ℕ → Host → Event → Bool × Event × Host
unfolding turn focus settle
dispatch_all [] h e = (false, e, h)
dispatch_all (i ∷ rest) h e = elim (focus (without_request rest h) i) [
  | none ↦ dispatch_all rest (without_request rest h) e
  | some s ↦ elim (turn (with_peer s (record (s.peer) { needs_dispatch = false })) e) [
    | returns f t ↦ (true, f, settle t)
    | continues f t ↦ dispatch_all rest (settle t) f
  ]
]

-- enet_protocol_dispatch_incoming_commands: true for 1.
unfoldable pub dispatch_incoming_commands : Host → Event → Bool × Event × Host
unfolding dispatch_all
dispatch_incoming_commands h e = dispatch_all h.dispatch_queue h e
