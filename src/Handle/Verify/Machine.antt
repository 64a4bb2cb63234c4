-- ===== src/Handle/Verify/Machine.antt =====
-- The answer to a request to connect against the step relation of a connection
-- (enet_protocol_handle_verify_connect of src/protocol.c).
use enet_revamp.Base.{◌≡◌, refl, sym, ap, subst, ◌∙◌, false, not, if◌then◌else◌, Option, none, some}
use enet_revamp.Protocol.{VerifyConnect}
use enet_revamp.State.{
  Session, PeerState, is_state, Event, connecting, connection_pending, connection_succeeded,
  connected, zombie,
}
use enet_revamp.State.Ranks.{same_state}
use enet_revamp.Session.{with_peer}
use enet_revamp.Handle.States.{notify_connect, change_state, recalculate, with_event_data}
use enet_revamp.Handle.States.Machine.{IsNext, stepped, stayed, accepted, succeeded, refused}
use enet_revamp.Handle.Sent.{remove_sent_reliable_command}
use enet_revamp.Handle.Sent.Removal.{IsAlike, remove_sent_reliable_command-IsAlike}
use enet_revamp.Handle.Acknowledge.Machine.{HasNext, has_next, branch-HasNext, dispatch_state-state}
use enet_revamp.Handle.Verify.{handle_verify_connect, agree, is_expected}
use enet_revamp.Handle.Verify.Bounds.{true_of_not}

notify_connect-IsNext :
    (s : Session) (event : Option Event)
    → s.peer.state ≡ connecting
    → IsNext connecting (notify_connect s event).1.peer.state
unfolding notify_connect change_state
notify_connect-IsNext s none e =
    stepped _ connection_succeeded _
      (dispatch_state-state (recalculate s) _
        ∙ ap
            (λ (st : PeerState).
              if is_state st connecting then connection_succeeded else connection_pending)
            e)
      succeeded
notify_connect-IsNext s (some v) e = stepped _ connected _ refl accepted

settled-IsNext :
    (s : Session) (v : VerifyConnect) (event : Option Event)
    → s.peer.state ≡ connecting
    → IsNext connecting
        (notify_connect
          (with_peer
            (remove_sent_reliable_command s 1 0xFF).1
            (agree v (remove_sent_reliable_command s 1 0xFF).1.peer))
          event).1.peer.state
unfolding IsAlike
settled-IsNext s v event e =
    let t = (remove_sent_reliable_command s 1 0xFF).1 in
    notify_connect-IsNext (with_peer t (agree v t.peer)) event
      ((remove_sent_reliable_command-IsAlike s 1 0xFF).0 ∙ e)

from_connecting :
    (st q : PeerState) → not (is_state st connecting) ≡ false → IsNext connecting q → IsNext st q
from_connecting st q h n =
    subst (λ a. IsNext a q) (sym (same_state st connecting (true_of_not _ h))) n

handle_verify_connect-HasNext :
    (event : Option Event) (s : Session) (v : VerifyConnect)
    → HasNext s.peer.state (handle_verify_connect event s v)
unfolding handle_verify_connect
handle_verify_connect-HasNext event s v =
    let st = s.peer.state in
    branch-HasNext st (not (is_state st connecting)) _ _ (λ _. has_next st _ (stayed st _ refl))
      (λ h.
        branch-HasNext st (not (is_expected s.peer v)) _ _
          (λ _. has_next st _ (
            from_connecting st _ h
              (stepped _ zombie _ (dispatch_state-state (with_event_data s 0) zombie) refused)))
          (λ _. has_next st _ (
            from_connecting st _ h
              (settled-IsNext s v event (same_state st connecting (true_of_not _ h))))))

-- The answer to a request to connect, expected or not and in whatever state the peer is, takes the
-- peer one step of the connection's life or leaves its state alone.
pub handle_verify_connect-IsNext :
    (event : Option Event) (s : Session) (v : VerifyConnect)
    → IsNext s.peer.state (handle_verify_connect event s v).session.peer.state
unfolding HasNext
handle_verify_connect-IsNext event s v = handle_verify_connect-HasNext event s v
