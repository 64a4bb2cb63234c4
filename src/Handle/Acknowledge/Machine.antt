-- ===== src/Handle/Acknowledge/Machine.antt =====
-- An acknowledgement against the step relation of a connection
-- (enet_protocol_handle_acknowledge of src/protocol.c).
use enet_revamp.Base.{
  ℕ, ◌≡◌, refl, sym, ap, subst, ◌∙◌, Bool, true, false, ◌==◌, if◌then◌else◌, Option, none, some,
  arith, enet_max, Bool-cases, inl, inr,
}
use enet_revamp.Time.{time_less, time_difference}
use enet_revamp.Protocol.{flag_acknowledge, flag_unsequenced}
use enet_revamp.Protocol.Command
use enet_revamp.State.{
  Peer, Host, Session, PeerState, is_state, is_connected, Event, disconnected, connecting,
  acknowledging_connect, connection_pending, connection_succeeded, connected, disconnect_later,
  disconnecting, zombie,
}
use enet_revamp.State.Ranks.{same_state}
use enet_revamp.Session.{with_peer, request_dispatch, leave_dispatch}
use enet_revamp.Peer.Queues.{reset_queues}
use enet_revamp.Peer.Outgoing.{queue_outgoing_command, has_outgoing_commands}
use enet_revamp.Peer.Outgoing.Standing.{queue_outgoing_command-IsAgreed}
use enet_revamp.Peer.Disconnect.{disconnect, disconnect_command, is_leaving}
use enet_revamp.Peer.Reset.{on_connect, on_disconnect, reset}
use enet_revamp.Peer.Throttle.{throttle}
use enet_revamp.Handle.States.{
  change_state, dispatch_state, notify_connect, notify_disconnect, recalculate,
}
use enet_revamp.Handle.States.Machine.{
  IsNext, stepped, stayed, opened, pending, drained, closed, closed_later,
}
use enet_revamp.Handle.Sent.{remove_sent_reliable_command, disconnect_if_done}
use enet_revamp.Handle.Sent.Draining.{reset_queues-state}
use enet_revamp.Handle.Sent.Removal.{IsAlike, remove_sent_reliable_command-IsAlike}
use enet_revamp.Handle.Acknowledge.{
  handle_acknowledge, answer, take_sample, measure, smooth, note_extremes, renew_epoch, is_gone,
  full_sent_time, Outcome,
}

pub dispatch_state-state : (s : Session) (st : PeerState) → (dispatch_state s st).peer.state ≡ st
unfolding dispatch_state change_state on_connect on_disconnect request_dispatch
dispatch_state-state s st = ground arith

reset-state : (s : Session) → (reset s).peer.state ≡ disconnected
unfolding reset on_disconnect reset_queues leave_dispatch
reset-state s = ground arith

notify_connect-IsNext :
    (s : Session) (event : Option Event)
    → s.peer.state ≡ acknowledging_connect
    → IsNext acknowledging_connect (notify_connect s event).1.peer.state
unfolding notify_connect change_state
notify_connect-IsNext s none e =
    stepped _ connection_pending _
      (dispatch_state-state (recalculate s) _
        ∙ ap
            (λ (st : PeerState).
              if is_state st connecting then connection_succeeded else connection_pending)
            e)
      pending
notify_connect-IsNext s (some v) e = stepped _ connected _ refl opened

notify_disconnect-state :
    (s : Session) → s.peer.state ≡ disconnecting → (notify_disconnect s none).1.peer.state ≡ zombie
unfolding notify_disconnect dispatch_state change_state on_connect on_disconnect request_dispatch
    reset reset_queues leave_dispatch
notify_disconnect-state s e = ground arith

notify_disconnect-reset :
    (s : Session) (v : Event)
    → s.peer.state ≡ disconnecting
    → (notify_disconnect s (some v)).1.peer.state ≡ disconnected
unfolding notify_disconnect dispatch_state change_state on_connect on_disconnect request_dispatch
    reset reset_queues leave_dispatch
notify_disconnect-reset s v e = ground arith

notify_disconnect-IsNext :
    (s : Session) (event : Option Event)
    → s.peer.state ≡ disconnecting
    → IsNext disconnecting (notify_disconnect s event).1.peer.state
notify_disconnect-IsNext s none e = stepped _ zombie _ (notify_disconnect-state s e) closed_later
notify_disconnect-IsNext s (some v) e =
    stepped _ disconnected _ (notify_disconnect-reset s v e) closed

-- What the peer's state is when it was to be disconnected later and is disconnected now.
second-state :
    (s y z : Session) (a b : Bool)
    → a ≡ false
    → b ≡ true
    → (if a then s else if b then y else z).peer.state ≡ y.peer.state
second-state s y z a b h k = rw (h, k)

disconnect-state :
    (flush : Host → Host) (s : Session) (user_data : ℕ)
    → s.peer.state ≡ disconnect_later
    → (disconnect flush s user_data).peer.state ≡ disconnecting
unfolding disconnect
disconnect-state flush s user_data e =
    let t = reset_queues s in
    let flag = if is_connected t.peer.state then flag_acknowledge else flag_unsequenced in
    let q = (queue_outgoing_command t (disconnect_command flag user_data) none 0 0).1 in
    let sent = queue_outgoing_command-IsAgreed t (disconnect_command flag user_data) none 0 0 in
    second-state s _ _ (is_leaving s.peer.state) (is_connected q.peer.state) (ap is_leaving e)
      (ap is_connected (sent.state ∙ (reset_queues-state s ∙ e)))

disconnect_if_done-IsNext :
    (flush : Host → Host) (s : Session)
    → IsNext s.peer.state (disconnect_if_done flush s).peer.state
unfolding disconnect_if_done
disconnect_if_done-IsNext flush s = elim (Bool-cases (is_state s.peer.state disconnect_later)) [
  | inl h ↦ elim (Bool-cases (has_outgoing_commands s.peer)) [
    | inl busy ↦ rw (h, busy) (stayed _ _ refl)
    | inr idle ↦
        let e = same_state s.peer.state disconnect_later h in
        rw (h, idle)
          (subst (λ st. IsNext st (disconnect flush s s.peer.event_data).peer.state) (sym e)
            (stepped _ disconnecting _ (disconnect-state flush s s.peer.event_data e) drained))
  ]
  | inr h ↦ rw h (stayed _ _ refl)
]

-- An outcome whose peer is at most one step on from a state.
unfoldable pub HasNext : PeerState → Outcome → Type 0
HasNext st o = IsNext st o.session.peer.state

pub has_next : (st : PeerState) (o : Outcome) → IsNext st o.session.peer.state → HasNext st o
unfolding HasNext
has_next st o h = h

pub branch-HasNext :
    (st : PeerState) (b : Bool) (x y : Outcome)
    → (b ≡ true → HasNext st x)
    → (b ≡ false → HasNext st y)
    → HasNext st (if b then x else y)
branch-HasNext st true x y h k = h refl
branch-HasNext st false x y h k = k refl

from_state : (st st' q : PeerState) → is_state st st' ≡ true → IsNext st' q → IsNext st q
from_state st st' q h n = subst (λ a. IsNext a q) (sym (same_state st st' h)) n

answer-HasNext :
    (flush : Host → Host) (event : Option Event) (number : ℕ) (s : Session)
    → HasNext s.peer.state (answer flush event (number, s))
unfolding answer
answer-HasNext flush event number s =
    let st = s.peer.state in
    branch-HasNext st (is_state st acknowledging_connect) _ _
      (λ h.
        branch-HasNext st (number == Command.verify_connect) _ _
          (λ _. has_next st _ (
            from_state st acknowledging_connect _ h
              (notify_connect-IsNext s event (same_state st acknowledging_connect h))))
          (λ _. has_next st _ (stayed st _ refl)))
      (λ _.
        branch-HasNext st (is_state st disconnecting) _ _
          (λ h.
            branch-HasNext st (number == Command.disconnect) _ _
              (λ _. has_next st _ (
                from_state st disconnecting _ h
                  (notify_disconnect-IsNext s event (same_state st disconnecting h))))
              (λ _. has_next st _ (stayed st _ refl)))
          (λ _. has_next st _ (disconnect_if_done-IsNext flush s)))

take_sample-state : (now sample : ℕ) (p : Peer) → (take_sample now sample p).state ≡ p.state
unfolding take_sample renew_epoch note_extremes measure smooth throttle
take_sample-state now sample p = ground arith

answer_removed-IsNext :
    (flush : Host → Host) (event : Option Event) (s : Session) (k n : ℕ)
    → IsNext s.peer.state
        (answer flush event (remove_sent_reliable_command s n k)).session.peer.state
unfolding HasNext IsAlike
answer_removed-IsNext flush event s k n =
    let r = remove_sent_reliable_command s n k in
    subst (λ st. IsNext st (answer flush event r).session.peer.state)
      (remove_sent_reliable_command-IsAlike s n k).0 (answer-HasNext flush event r.0 r.1)

sampled-IsNext :
    (flush : Host → Host) (event : Option Event) (s : Session) (now sample k n : ℕ)
    → IsNext s.peer.state
        (answer flush event (
          remove_sent_reliable_command
            (with_peer s (take_sample now sample s.peer))
            n
            k)).session.peer.state
sampled-IsNext flush event s now sample k n =
    let t = with_peer s (take_sample now sample s.peer) in
    subst
      (λ st. IsNext st (answer flush event (remove_sent_reliable_command t n k)).session.peer.state)
      (take_sample-state now sample s.peer) (answer_removed-IsNext flush event t k n)

handle_acknowledge-HasNext :
    (flush : Host → Host) (event : Option Event) (s : Session) (k n received : ℕ)
    → HasNext s.peer.state (handle_acknowledge flush event s k n received)
unfolding handle_acknowledge
handle_acknowledge-HasNext flush event s k n received =
    let now = s.host.service_time in
    let st = s.peer.state in
    branch-HasNext st (is_gone st) _ _ (λ _. has_next st _ (stayed st _ refl))
      (λ _.
        branch-HasNext st (time_less now (full_sent_time now received)) _ _
          (λ _. has_next st _ (stayed st _ refl))
          (λ _. has_next st _ (
            sampled-IsNext flush event s now
              (enet_max (time_difference now (full_sent_time now received)) 1) k n)))

-- An acknowledgement, of whatever command at whatever time and in whatever state the peer is, takes
-- the peer one step of the connection's life or leaves its state alone.
pub handle_acknowledge-IsNext :
    (flush : Host → Host) (event : Option Event) (s : Session) (k n received : ℕ)
    → IsNext s.peer.state (handle_acknowledge flush event s k n received).session.peer.state
unfolding HasNext
handle_acknowledge-IsNext flush event s k n received =
    handle_acknowledge-HasNext flush event s k n received
