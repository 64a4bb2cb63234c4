-- ===== src/Handle/States/Counts.antt =====
-- The counters `connectedPeers` and `bandwidthLimitedPeers` of a host, which enet_peer_on_connect
-- and enet_peer_on_disconnect keep. What a peer contributes to them is subtracted, so an operation
-- on the peer counts rightly when the difference stays as it was.
use enet_revamp.Base.{
  if_lem, Bool, true, false, ℕ, ◌≡◌, refl, ◌∙◌, not, ◌&&◌, ◌==◌, if◌then◌else◌, Option, none, some,
  arith, sub64,
}
use enet_revamp.Protocol.{BandwidthLimit, wants_acknowledge}
use enet_revamp.State.{Session, PeerState, is_state, is_connected, Event}
use enet_revamp.Session.{request_dispatch, leave_dispatch}
use enet_revamp.Peer.Queues.{reset_queues}
use enet_revamp.Peer.Reset.{on_connect, on_disconnect, reset}
use enet_revamp.Peer.Outgoing.Standing.{IsAgreed}
use enet_revamp.Handle.States.{
  recalculate, with_event_data, change_state, dispatch_state, notify_connect, notify_disconnect,
}
use enet_revamp.Handle.Control.{
  handle_bandwidth_limit, handle_disconnect, leave, ends_unseen, has_left,
}

-- The other peers that are connected, and those of them with a bandwidth limit.
abbrev pub others_connected : Session → ℕ
others_connected s = sub64 s.host.connected_peers (if is_connected s.peer.state then 1 else 0)

abbrev pub others_limited : Session → ℕ
others_limited s =
    sub64 s.host.bandwidth_limited_peers
      (if is_connected s.peer.state && not (s.peer.incoming_bandwidth == 0) then 1 else 0)

unfoldable pub IsCounted : Session → Session → Type 0
IsCounted s t = (others_connected t ≡ others_connected s) × (others_limited t ≡ others_limited s)

pub change_state-IsCounted : (s : Session) (st : PeerState) → IsCounted s (change_state s st)
unfolding IsCounted change_state on_connect on_disconnect
change_state-IsCounted s st = ground arith

pub dispatch_state-IsCounted : (s : Session) (st : PeerState) → IsCounted s (dispatch_state s st)
unfolding IsCounted dispatch_state change_state on_connect on_disconnect request_dispatch
dispatch_state-IsCounted s st = ground arith

pub reset_queues-IsCounted : (s : Session) → IsCounted s (reset_queues s)
unfolding IsCounted reset_queues leave_dispatch
reset_queues-IsCounted s = ground arith

pub reset-IsCounted : (s : Session) → IsCounted s (reset s)
unfolding IsCounted reset on_disconnect reset_queues leave_dispatch
reset-IsCounted s = ground arith

pub notify_connect-IsCounted :
    (s : Session) (event : Option Event) → IsCounted s (notify_connect s event).1
unfolding IsCounted notify_connect dispatch_state change_state on_connect on_disconnect
    request_dispatch
notify_connect-IsCounted s none = ground arith
notify_connect-IsCounted s (some e) = ground arith

pub notify_disconnect-IsCounted :
    (s : Session) (event : Option Event) → IsCounted s (notify_disconnect s event).1
unfolding IsCounted notify_disconnect dispatch_state change_state on_connect on_disconnect
    request_dispatch reset reset_queues leave_dispatch
notify_disconnect-IsCounted s none = ground arith
notify_disconnect-IsCounted s (some e) = ground arith

pub handle_bandwidth_limit-IsCounted :
    (s : Session) (b : BandwidthLimit) → IsCounted s (handle_bandwidth_limit s b).1
unfolding IsCounted handle_bandwidth_limit
handle_bandwidth_limit-IsCounted s b = ground arith

-- The counters say the same where sessions agree on what they are made of.
pub IsAgreed-IsCounted : (s t : Session) → IsAgreed s t → IsCounted s t
unfolding IsCounted
IsAgreed-IsCounted s t k = (rw (k.state, k.connected), rw (k.state, k.bandwidth, k.limited))

pub IsCounted-refl : (s : Session) → IsCounted s s
unfolding IsCounted
IsCounted-refl s = (refl, refl)

pub IsCounted-trans : (s t u : Session) → IsCounted s t → IsCounted t u → IsCounted s u
unfolding IsCounted
IsCounted-trans s t u (a, b) (c, d) = (c ∙ a, d ∙ b)

recalculate-IsCounted : (s : Session) → IsCounted s (recalculate s)
unfolding IsCounted
recalculate-IsCounted s = (refl, refl)

-- The flag and the data that change with the state are not counted.
pending-IsCounted : (s : Session) (b : Bool) → IsCounted s (reset (if b then recalculate s else s))
pending-IsCounted s true =
    IsCounted-trans s (recalculate s) (reset (recalculate s)) (recalculate-IsCounted s)
      (reset-IsCounted (recalculate s))
pending-IsCounted s false = reset-IsCounted s

leave-IsCounted : (s : Session) (command : ℕ) → IsCounted s (leave s command)
unfolding leave
leave-IsCounted s command =
    if_lem (IsCounted s) (ends_unseen s.peer.state)
      (λ _. dispatch_state-IsCounted s PeerState.zombie)
      λ _.
        if_lem (IsCounted s) (not (is_connected s.peer.state))
          (λ _. pending-IsCounted s (is_state s.peer.state PeerState.connection_pending))
          λ _.
            if_lem (IsCounted s) (wants_acknowledge command)
              (λ _. change_state-IsCounted s PeerState.acknowledging_disconnect)
              (λ _. dispatch_state-IsCounted s PeerState.zombie)

with_event_data-IsCounted :
    (s t : Session) (n : ℕ) → IsCounted s t → IsCounted s (with_event_data t n)
unfolding IsCounted
with_event_data-IsCounted s t n h = h

-- A DISCONNECT command, whatever it asks for and whatever state the peer is in, changes the counters
-- of the host by what the peer's change of state means: less the share of this peer, the numbers of
-- connected peers and of bandwidth-limited ones are as they were.
pub handle_disconnect-IsCounted :
    (s : Session) (command user_data : ℕ) → IsCounted s (handle_disconnect s command user_data).1
unfolding handle_disconnect
handle_disconnect-IsCounted s command user_data =
    let t = leave (reset_queues s) command in
    let gone =
      IsCounted-trans s (reset_queues s) t (reset_queues-IsCounted s)
        (leave-IsCounted (reset_queues s) command) in
    if_lem (λ (r : Bool × Session). IsCounted s r.1) (has_left s.peer.state) (λ _. IsCounted-refl s)
      λ _.
        if_lem (IsCounted s) (is_state t.peer.state PeerState.disconnected) (λ _. gone)
          (λ _. with_event_data-IsCounted s t user_data gone)
