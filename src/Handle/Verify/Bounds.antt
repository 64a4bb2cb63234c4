-- ===== src/Handle/Verify/Bounds.antt =====
-- What enet_protocol_handle_verify_connect of src/protocol.c makes of the other side's answer: the
-- parameters it settles on, and the counters of the host.
use enet_revamp.Base.{
  sym, ◌≤◌, ◌≡◌, refl, ◌∙◌, Bool, true, false, not, if◌then◌else◌, Option, none, some, arith,
}
use enet_revamp.Protocol.{VerifyConnect}
use enet_revamp.State.{Peer, Session, PeerState, is_state, Event, connecting}
use enet_revamp.State.Ranks.{same_state}
use enet_revamp.Session.{with_peer, request_dispatch}
use enet_revamp.Peer.Reset.{on_connect, on_disconnect}
use enet_revamp.Handle.States.{notify_connect, with_event_data, dispatch_state, change_state}
use enet_revamp.Handle.States.Counts.{
  IsCounted, IsCounted-refl, IsCounted-trans, notify_connect-IsCounted, dispatch_state-IsCounted,
}
use enet_revamp.Handle.Sent.{remove_sent_reliable_command}
use enet_revamp.Handle.Sent.Removal.{
  IsAlike, remove_sent_reliable_command-IsAlike, remove_sent_reliable_command-IsCounted,
}
use enet_revamp.Handle.Acknowledge.{Outcome}
use enet_revamp.Handle.Acknowledge.Counts.{HasCounted, either-HasCounted, counted}
use enet_revamp.Handle.Verify.{handle_verify_connect, agree, is_expected}

branch-HasCounted :
    (s : Session) (b : Bool) (x y : Outcome)
    → (b ≡ true → HasCounted s x)
    → (b ≡ false → HasCounted s y)
    → HasCounted s (if b then x else y)
branch-HasCounted s true x y h k = h refl
branch-HasCounted s false x y h k = k refl

-- Before it is reported, a peer that is connecting counts for nothing.
agree-IsCounted :
    (s : Session) (v : VerifyConnect)
    → s.peer.state ≡ connecting
    → IsCounted s (with_peer s (agree v s.peer))
unfolding IsCounted
agree-IsCounted s v h = ground arith

settled-IsCounted :
    (s : Session) (v : VerifyConnect) (event : Option Event)
    → s.peer.state ≡ connecting
    → IsCounted s
        (notify_connect
          (with_peer
            (remove_sent_reliable_command s 1 0xFF).1
            (agree v (remove_sent_reliable_command s 1 0xFF).1.peer))
          event).1
unfolding IsAlike
settled-IsCounted s v event h =
    let t = (remove_sent_reliable_command s 1 0xFF).1 in
    IsCounted-trans s _ _
      (IsCounted-trans s t _ (remove_sent_reliable_command-IsCounted s 1 0xFF)
        (agree-IsCounted t v ((remove_sent_reliable_command-IsAlike s 1 0xFF).0 ∙ h)))
      (notify_connect-IsCounted _ event)

pub true_of_not : (b : Bool) → not b ≡ false → b ≡ true
true_of_not true h = refl
true_of_not false h = sym h

handle_verify_connect-HasCounted :
    (event : Option Event) (s : Session) (v : VerifyConnect)
    → HasCounted s (handle_verify_connect event s v)
unfolding handle_verify_connect IsCounted
handle_verify_connect-HasCounted event s v =
    branch-HasCounted s (not (is_state s.peer.state connecting)) _ _
      (λ _. counted s _ (IsCounted-refl s))
      (λ h.
        either-HasCounted s (not (is_expected s.peer v)) _ _
          (counted s _ (dispatch_state-IsCounted (with_event_data s 0) PeerState.zombie))
          (counted s _
            (settled-IsCounted s v event (same_state s.peer.state connecting (true_of_not _ h)))))

-- The answer to a request to connect, expected or not, in whatever state the peer is, changes the
-- counters of the host by what the peer's change of state means: less the share of this peer, the
-- numbers of connected peers and of bandwidth-limited ones are as they were.
pub handle_verify_connect-IsCounted :
    (event : Option Event) (s : Session) (v : VerifyConnect)
    → IsCounted s (handle_verify_connect event s v).session
unfolding HasCounted
handle_verify_connect-IsCounted event s v = handle_verify_connect-HasCounted event s v

HasSameParameters : Peer → Peer → Type 0
HasSameParameters p q =
    (q.mtu ≡ p.mtu) × (q.window_size ≡ p.window_size) × (q.channel_count ≡ p.channel_count)

notify_connect-HasSameParameters :
    (s : Session) (event : Option Event) → HasSameParameters s.peer (notify_connect s event).1.peer
unfolding HasSameParameters notify_connect dispatch_state change_state on_connect on_disconnect
    request_dispatch
notify_connect-HasSameParameters s none = ground arith
notify_connect-HasSameParameters s (some e) = ground arith

-- Whatever the other side answers, a peer with lawful parameters keeps lawful ones, none larger than
-- it asked for: its MTU stays at least 576, its window at least 4096 and its channels at least one.
pub handle_verify_connect_bounds :
    (event : Option Event) (s : Session) (v : VerifyConnect)
    → 576 ≤ s.peer.mtu
    → 4096 ≤ s.peer.window_size
    → 1 ≤ s.peer.channel_count
    → (576 ≤ (handle_verify_connect event s v).session.peer.mtu)
      × ((handle_verify_connect event s v).session.peer.mtu ≤ s.peer.mtu)
      × (4096 ≤ (handle_verify_connect event s v).session.peer.window_size)
      × ((handle_verify_connect event s v).session.peer.window_size ≤ s.peer.window_size)
      × (1 ≤ (handle_verify_connect event s v).session.peer.channel_count)
      × ((handle_verify_connect event s v).session.peer.channel_count ≤ s.peer.channel_count)
unfolding handle_verify_connect is_expected IsAlike HasSameParameters dispatch_state change_state
    on_connect on_disconnect request_dispatch
handle_verify_connect_bounds event s v a b c =
    let t = (remove_sent_reliable_command s 1 0xFF).1 in
    ground (
      arith,
      remove_sent_reliable_command-IsAlike s 1 0xFF,
      notify_connect-HasSameParameters (with_peer t (agree v t.peer)) event,
    )
