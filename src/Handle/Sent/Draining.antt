-- ===== src/Handle/Sent/Draining.antt =====
-- The counters of the host when a peer that was to be disconnected later has nothing left to send:
-- enet_peer_disconnect as src/protocol.c calls it.
use enet_revamp.Base.{
  ℕ, Bool, true, false, ◌≡◌, ◌∙◌, ap, if◌then◌else◌, none, arith, Bool-cases, inl, inr,
}
use enet_revamp.Protocol.{flag_acknowledge, flag_unsequenced}
use enet_revamp.State.{Host, Session, is_state, is_connected, disconnect_later, disconnecting}
use enet_revamp.State.Ranks.{same_state}
use enet_revamp.Session.{leave_dispatch}
use enet_revamp.Peer.Queues.{reset_queues}
use enet_revamp.Peer.Outgoing.{queue_outgoing_command, has_outgoing_commands}
use enet_revamp.Peer.Outgoing.Standing.{queue_outgoing_command-IsAgreed}
use enet_revamp.Peer.Disconnect.{disconnect, disconnect_command, is_leaving}
use enet_revamp.Handle.States.{change_state}
use enet_revamp.Handle.States.Counts.{
  IsCounted, IsCounted-trans, IsCounted-refl, reset_queues-IsCounted, IsAgreed-IsCounted,
  change_state-IsCounted,
}
use enet_revamp.Handle.Sent.{disconnect_if_done}

pub reset_queues-state : (s : Session) → (reset_queues s).peer.state ≡ s.peer.state
unfolding reset_queues leave_dispatch
reset_queues-state s = ground arith

second-IsCounted :
    (s y z : Session) (a b : Bool)
    → a ≡ false
    → b ≡ true
    → IsCounted s y
    → IsCounted s (if a then s else if b then y else z)
second-IsCounted s y z a b h k c = rw (h, k) c

-- Without the argument `flush`: a connected peer leaves by its DISCONNECT command alone.
disconnect-IsCounted :
    (flush : Host → Host) (s : Session) (user_data : ℕ)
    → s.peer.state ≡ disconnect_later
    → IsCounted s (disconnect flush s user_data)
unfolding disconnect change_state
disconnect-IsCounted flush s user_data e =
    let t = reset_queues s in
    let flag = if is_connected t.peer.state then flag_acknowledge else flag_unsequenced in
    let q = (queue_outgoing_command t (disconnect_command flag user_data) none 0 0).1 in
    let sent = queue_outgoing_command-IsAgreed t (disconnect_command flag user_data) none 0 0 in
    let st : q.peer.state ≡ disconnect_later = sent.state ∙ (reset_queues-state s ∙ e) in
    second-IsCounted s _ _ (is_leaving s.peer.state) (is_connected q.peer.state) (ap is_leaving e)
      (ap is_connected st)
      (IsCounted-trans s t _ (reset_queues-IsCounted s) (
        IsCounted-trans t q _ (IsAgreed-IsCounted t q sent)
          (change_state-IsCounted q disconnecting)))

pub disconnect_if_done-IsCounted :
    (flush : Host → Host) (s : Session) → IsCounted s (disconnect_if_done flush s)
unfolding disconnect_if_done
disconnect_if_done-IsCounted flush s = elim (Bool-cases (is_state s.peer.state disconnect_later)) [
  | inl h ↦ elim (Bool-cases (has_outgoing_commands s.peer)) [
    | inl busy ↦ rw (h, busy) (IsCounted-refl s)
    | inr idle ↦
        rw (h, idle)
          (disconnect-IsCounted flush s s.peer.event_data
            (same_state s.peer.state disconnect_later h))
  ]
  | inr h ↦ rw h (IsCounted-refl s)
]
