-- ===== src/Handle/States/Machine.antt =====
-- The life of a connection as a step relation on the states of a peer, and the handlers of
-- src/protocol.c against it.
use enet_revamp.Base.{
  sym, subst, ℕ, ◌≡◌, ◌⊎◌, inl, inr, refl, Bool, true, false, if◌then◌else◌, arith,
}
use enet_revamp.Protocol.{wants_acknowledge}
use enet_revamp.State.{
  Session, PeerState, disconnected, connecting, acknowledging_connect, connection_pending,
  connection_succeeded, connected, disconnect_later, disconnecting, acknowledging_disconnect,
  zombie,
}
use enet_revamp.Session.{request_dispatch, leave_dispatch}
use enet_revamp.Peer.Queues.{reset_queues}
use enet_revamp.Peer.Reset.{on_connect, on_disconnect, reset}
use enet_revamp.Handle.States.{change_state, dispatch_state}
use enet_revamp.Handle.Control.{handle_disconnect, leave}

-- What the arrival of one command can make of a peer's state. `opened` and `accepted` end a
-- handshake where the application waits for the event, `pending` and `succeeded` where it does not.
pub data Step : PeerState → PeerState → Type 0 where
  opened : Step acknowledging_connect connected
  pending : Step acknowledging_connect connection_pending
  accepted : Step connecting connected
  succeeded : Step connecting connection_succeeded
  refused : Step connecting zombie
  withdrawn : Step acknowledging_connect disconnected
  unseen : Step connection_pending disconnected
  unreported : Step connection_succeeded zombie
  closing : Step connected acknowledging_disconnect
  closing_later : Step disconnect_later acknowledging_disconnect
  dropped : Step connected zombie
  dropped_later : Step disconnect_later zombie
  drained : Step disconnect_later disconnecting
  closed : Step disconnecting disconnected
  closed_later : Step disconnecting zombie

-- The state is as it was, or one step on.
pub IsNext : PeerState → PeerState → Type 0
IsNext st st' = (st' ≡ st) ⊎ Step st st'

pub stepped : (st st' q : PeerState) → q ≡ st' → Step st st' → IsNext st q
unfolding IsNext
stepped st st' q e step = inr (subst (Step st) (sym e) step)

pub stayed : (st q : PeerState) → q ≡ st → IsNext st q
unfolding IsNext
stayed st q e = inl e

-- The state after a DISCONNECT command that asks for an acknowledgement or not.
leave_state : Bool → PeerState → PeerState
leave_state asks disconnected = disconnected
leave_state asks connecting = zombie
leave_state asks acknowledging_connect = disconnected
leave_state asks connection_pending = disconnected
leave_state asks connection_succeeded = zombie
leave_state asks connected = if asks then acknowledging_disconnect else zombie
leave_state asks disconnect_later = if asks then acknowledging_disconnect else zombie
leave_state asks disconnecting = zombie
leave_state asks acknowledging_disconnect = acknowledging_disconnect
leave_state asks zombie = zombie

leave_state-IsNext : (asks : Bool) (st : PeerState) → IsNext st (leave_state asks st)
unfolding IsNext leave_state
leave_state-IsNext asks disconnected = inl refl
leave_state-IsNext asks connecting = inr refused
leave_state-IsNext asks acknowledging_connect = inr withdrawn
leave_state-IsNext asks connection_pending = inr unseen
leave_state-IsNext asks connection_succeeded = inr unreported
leave_state-IsNext true connected = inr closing
leave_state-IsNext false connected = inr dropped
leave_state-IsNext true disconnect_later = inr closing_later
leave_state-IsNext false disconnect_later = inr dropped_later
leave_state-IsNext asks disconnecting = inr closed_later
leave_state-IsNext asks acknowledging_disconnect = inl refl
leave_state-IsNext asks zombie = inl refl

handle_disconnect-leave_state :
    (s : Session) (command user_data : ℕ) (st : PeerState)
    → s.peer.state ≡ st
    → (handle_disconnect s command user_data).1.peer.state
      ≡ leave_state (wants_acknowledge command) st
unfolding leave_state handle_disconnect leave dispatch_state change_state on_connect on_disconnect
    request_dispatch reset reset_queues leave_dispatch
handle_disconnect-leave_state s command user_data disconnected h = ground arith
handle_disconnect-leave_state s command user_data connecting h = ground arith
handle_disconnect-leave_state s command user_data acknowledging_connect h = ground arith
handle_disconnect-leave_state s command user_data connection_pending h = ground arith
handle_disconnect-leave_state s command user_data connection_succeeded h = ground arith
handle_disconnect-leave_state s command user_data connected h = ground arith
handle_disconnect-leave_state s command user_data disconnect_later h = ground arith
handle_disconnect-leave_state s command user_data disconnecting h = ground arith
handle_disconnect-leave_state s command user_data acknowledging_disconnect h = ground arith
handle_disconnect-leave_state s command user_data zombie h = ground arith

-- A DISCONNECT command, whatever it asks for and whatever state the peer is in, takes the peer one
-- step of the connection's life or leaves its state alone.
pub handle_disconnect-IsNext :
    (s : Session) (command user_data : ℕ)
    → IsNext s.peer.state (handle_disconnect s command user_data).1.peer.state
handle_disconnect-IsNext s command user_data =
    rw (handle_disconnect-leave_state s command user_data s.peer.state refl)
      (leave_state-IsNext (wants_acknowledge command) s.peer.state)
