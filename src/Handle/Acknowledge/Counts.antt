-- ===== src/Handle/Acknowledge/Counts.antt =====
-- The handlers of src/protocol.c that go through the queues of acknowledged commands keep the
-- counters of the host too.
use enet_revamp.Base.{ℕ, Bool, true, false, ◌==◌, if◌then◌else◌, Option, arith}
use enet_revamp.Protocol.Command
use enet_revamp.Time.{time_less}
use enet_revamp.State.{Host, Session, is_state, acknowledging_connect, disconnecting, Event}
use enet_revamp.Session.{with_peer}
use enet_revamp.Peer.Throttle.{throttle}
use enet_revamp.Handle.States.Counts.{
  IsCounted, notify_connect-IsCounted, notify_disconnect-IsCounted, IsCounted-trans, IsCounted-refl,
}
use enet_revamp.Handle.Sent.{remove_sent_reliable_command}
use enet_revamp.Handle.Sent.Draining.{disconnect_if_done-IsCounted}
use enet_revamp.Handle.Sent.Removal.{remove_sent_reliable_command-IsCounted}
use enet_revamp.Handle.Acknowledge.{
  handle_acknowledge, answer, take_sample, measure, smooth, note_extremes, renew_epoch, is_gone,
  full_sent_time, Outcome,
}

take_sample-IsCounted :
    (now sample : ℕ) (s : Session) → IsCounted s (with_peer s (take_sample now sample s.peer))
unfolding IsCounted take_sample renew_epoch note_extremes measure smooth throttle
take_sample-IsCounted now sample s = ground arith

-- What a handler leaves is counted rightly.
unfoldable pub HasCounted : Session → Outcome → Type 0
HasCounted s o = IsCounted s o.session

pub either-HasCounted :
    (s : Session) (b : Bool) (x y : Outcome)
    → HasCounted s x
    → HasCounted s y
    → HasCounted s (if b then x else y)
either-HasCounted s true x y h k = h
either-HasCounted s false x y h k = k

pub counted : (s : Session) (o : Outcome) → IsCounted s o.session → HasCounted s o
unfolding HasCounted
counted s o h = h

answer-HasCounted :
    (flush : Host → Host) (event : Option Event) (number : ℕ) (s : Session)
    → HasCounted s (answer flush event (number, s))
unfolding answer
answer-HasCounted flush event number s =
    either-HasCounted s (is_state s.peer.state acknowledging_connect) _ _
      (either-HasCounted s (number == Command.verify_connect) _ _
        (counted s _ (notify_connect-IsCounted s event)) (counted s _ (IsCounted-refl s)))
      (either-HasCounted s (is_state s.peer.state disconnecting) _ _
        (either-HasCounted s (number == Command.disconnect) _ _
          (counted s _ (notify_disconnect-IsCounted s event)) (counted s _ (IsCounted-refl s)))
        (counted s _ (disconnect_if_done-IsCounted flush s)))

answer_removed-IsCounted :
    (flush : Host → Host) (event : Option Event) (s : Session) (k n : ℕ)
    → IsCounted s (answer flush event (remove_sent_reliable_command s n k)).session
unfolding HasCounted
answer_removed-IsCounted flush event s k n =
    IsCounted-trans s _ _ (remove_sent_reliable_command-IsCounted s n k) (
      answer-HasCounted flush event (remove_sent_reliable_command s n k).0
        (remove_sent_reliable_command s n k).1)

handle_acknowledge-HasCounted :
    (flush : Host → Host) (event : Option Event) (s : Session) (k n received : ℕ)
    → HasCounted s (handle_acknowledge flush event s k n received)
unfolding handle_acknowledge
handle_acknowledge-HasCounted flush event s k n received =
    either-HasCounted s (is_gone s.peer.state) _ _ (counted s _ (IsCounted-refl s)) (
      either-HasCounted s
        (time_less s.host.service_time (full_sent_time s.host.service_time received)) _ _
        (counted s _ (IsCounted-refl s))
        (counted s _ (
          IsCounted-trans s _ _ (take_sample-IsCounted _ _ s)
            (answer_removed-IsCounted flush event _ k n))))

-- Whatever acknowledgement arrives, in whatever state the peer is, the counters of the host change
-- by what the peer's change of state means: less the share of this peer, the numbers of connected
-- peers and of bandwidth-limited ones are as they were.
pub handle_acknowledge-IsCounted :
    (flush : Host → Host) (event : Option Event) (s : Session) (k n received : ℕ)
    → IsCounted s (handle_acknowledge flush event s k n received).session
unfolding HasCounted
handle_acknowledge-IsCounted flush event s k n received =
    handle_acknowledge-HasCounted flush event s k n received
