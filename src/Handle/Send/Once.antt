-- ===== src/Handle/Send/Once.antt =====
-- An unsequenced command is taken once: enet_protocol_handle_send_unsequenced of src/protocol.c.
use enet_revamp.Base.{
  ℕ, ◌%◌, ◌<◌, ◌≡◌, refl, ap, ◌∙◌, Bool, true, false, some, arith, Bool-cases, inl, inr,
}
use enet_revamp.Protocol.{Protocol}
use enet_revamp.State.{Peer, Session}
use enet_revamp.Session.{with_peer}
use enet_revamp.Peer.Incoming.{Queued, failed, dummy, fresh}
use enet_revamp.Peer.Incoming.Standing.{Standing, standing, queue_incoming_command-standing}
use enet_revamp.Handle.Send.{
  Received, handle_send_unsequenced, queue_received, unless_failed, mark_group, move_window, is_far,
  is_open, has_arrived, group_of, data_length_of, window_start, packet_flag_unsequenced,
}

unless_failed-session : (q : Queued × Session) → (unless_failed q).1 ≡ q.1
unfolding unless_failed
unless_failed-session (failed, s) = refl
unless_failed-session (dummy, s) = refl
unless_failed-session (fresh a, s) = refl

queue_received-standing :
    (s : Session) (command : Protocol) (r : Received) (flags : ℕ)
    → standing (queue_received s command r flags).1 ≡ standing s
unfolding queue_received
queue_received-standing s command r flags =
    ap standing (unless_failed-session _)
    ∙ queue_incoming_command-standing s command (some r.bytes) (data_length_of command.body) flags 0

-- The group is ticked off in the window that the peer is at.
abbrev pub IsTaken : Peer → ℕ → Type 0
IsTaken p group =
    (p.incoming_unsequenced_group ≡ window_start group)
    × (p.unsequenced_window (group % 1024) ≡ true)

mark_group-IsTaken :
    (group : ℕ) (r : Bool × Session)
    → (mark_group group r).0 ≡ true
    → r.1.peer.incoming_unsequenced_group ≡ window_start group
    → IsTaken (mark_group group r).1.peer group
unfolding mark_group
mark_group-IsTaken group (false, s) h e = cc
mark_group-IsTaken group (true, s) h e = (e, ground arith)

move_window-start :
    (p : Peer) (group : ℕ)
    → group < 65536
    → (move_window p group).incoming_unsequenced_group ≡ window_start group
unfolding move_window
move_window-start p group small = ground arith

move_window-marked :
    (p : Peer) (group : ℕ)
    → (move_window p group).unsequenced_window (group % 1024) ≡ true
    → IsTaken p group
unfolding move_window
move_window-marked p group h = ground arith

handle_send_unsequenced-IsTaken :
    (s : Session) (command : Protocol) (r : Received)
    → group_of command.body < 65536
    → is_far s.peer (group_of command.body) ≡ false
    → (handle_send_unsequenced s command r).0 ≡ true
    → IsTaken (handle_send_unsequenced s command r).1.peer (group_of command.body)
unfolding handle_send_unsequenced
handle_send_unsequenced-IsTaken s command r small near ok =
    let group = group_of command.body in
    let p = move_window s.peer group in
    elim (Bool-cases (is_open s.peer command)) [
      | inr shut ↦ let bad : ◌≡◌ {A = Bool} false true = rw shut at ok in cc
      | inl opened ↦ elim (Bool-cases (has_arrived s.host (data_length_of command.body) r)) [
        | inr short ↦ let bad : ◌≡◌ {A = Bool} false true = rw (opened, short) at ok in cc
        | inl whole ↦ elim (Bool-cases (p.unsequenced_window (group % 1024))) [
          | inl set ↦ rw (opened, whole, near, set) (move_window-marked s.peer group set)
          | inr clear ↦
              rw (opened, whole, near, clear)
                (mark_group-IsTaken group _ (rw (opened, whole, near, clear) at ok) (
                  ap (λ (x : Standing). x.group)
                    (queue_received-standing (with_peer s p) command r packet_flag_unsequenced)
                  ∙ move_window-start s.peer group small))
        ]
      ]
    ]

taken_unchanged :
    (t : Session) (command : Protocol) (r : Received)
    → IsTaken t.peer (group_of command.body)
    → (handle_send_unsequenced t command r).1 ≡ t
unfolding handle_send_unsequenced move_window
taken_unchanged t command r (e, h) = ground arith

-- An unsequenced command that was accepted, its group not too far ahead of the window, is taken
-- once: when a copy of it arrives next, in this or another datagram, nothing changes.
pub unsequenced_once :
    (s : Session) (command : Protocol) (r r' : Received)
    → group_of command.body < 65536
    → is_far s.peer (group_of command.body) ≡ false
    → (handle_send_unsequenced s command r).0 ≡ true
    → (handle_send_unsequenced (handle_send_unsequenced s command r).1 command r').1
      ≡ (handle_send_unsequenced s command r).1
unsequenced_once s command r r' small near ok =
    taken_unchanged (handle_send_unsequenced s command r).1 command r'
      (handle_send_unsequenced-IsTaken s command r small near ok)
