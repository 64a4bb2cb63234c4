-- ===== src/Sending/Timeouts/Resent.antt =====
-- What enet_protocol_check_timeouts (src/protocol.c) sends again, described without its walk.
use mathlib.Core.List.{append-nil, append_assoc}
use enet_revamp.Base.{
  if_lem, ℕ, ◌≡◌, refl, sym, ap, ◌∙◌, inl, inr, Bool, true, false, not, ◌&&◌, Option, List, [], ◌∷◌,
  ◌++◌, map, select, is_some, Bool-cases,
}
use enet_revamp.State.{OutgoingCommand, Peer, Session, Event}
use enet_revamp.Session.{with_peer}
use enet_revamp.Sending.Timeouts.{
  Sweep, in_time, note_timeout, is_lost, doubled, send_again, sweep, start_sweep, finish_sweep,
  check_timeouts,
}

-- Late commands, with and without a packet.
abbrev pub is_late_packet : ℕ → OutgoingCommand → Bool
is_late_packet now o = not (in_time now o) && is_some o.packet

abbrev pub is_late_plain : ℕ → OutgoingCommand → Bool
is_late_plain now o = not (in_time now o) && not (is_some o.packet)

-- A walk over the commands that gives nothing up, from the variables w on.
record IsSwept (now : ℕ) (commands : List OutgoingCommand) (w : Sweep)
    (end : Bool × Sweep × List OutgoingCommand) : Type 0 where
  kept : (end.1).kept ≡ w.kept ++ select (in_time now) commands
  resent : (end.1).resent ≡ w.resent ++ map doubled (select (is_late_plain now) commands)
  resent_reliable :
      (end.1).resent_reliable
      ≡ w.resent_reliable ++ map doubled (select (is_late_packet now) commands)
  rest : end.2 ≡ []

-- One command more in front of the walk.
stay-IsSwept :
    (now : ℕ) (o : OutgoingCommand) (commands : List OutgoingCommand) (w : Sweep)
    (end : Bool × Sweep × List OutgoingCommand)
    → in_time now o ≡ true
    → IsSwept now commands (record w { kept = w.kept ++ o ∷ [] }) end
    → IsSwept now (o ∷ commands) w end
stay-IsSwept now o commands w end early h = record {
  kept = rw early (h.kept ∙ append_assoc w.kept (o ∷ []) (select (in_time now) commands));
  resent = rw early h.resent;
  resent_reliable = rw early h.resent_reliable;
  rest = h.rest;
}

move-IsSwept :
    (now : ℕ) (o : OutgoingCommand) (commands : List OutgoingCommand) (w : Sweep) (p : Peer)
    (end : Bool × Sweep × List OutgoingCommand)
    → in_time now o ≡ false
    → IsSwept now commands (send_again o commands (record w { peer = p })) end
    → IsSwept now (o ∷ commands) w end
unfolding send_again
move-IsSwept now o commands w p end late h = elim (Bool-cases (is_some o.packet)) [
  | inl packet ↦ record {
    kept = rw late h.kept;
    resent = rw (late, packet) (rw packet at h.resent);
    resent_reliable =
        rw (late, packet)
          ((rw packet at h.resent_reliable)
            ∙ append_assoc w.resent_reliable (doubled o ∷ [])
                (map doubled (select (is_late_packet now) commands)));
    rest = h.rest;
  }
  | inr plain ↦ record {
    kept = rw late h.kept;
    resent =
        rw (late, plain)
          ((rw plain at h.resent)
            ∙ append_assoc w.resent (doubled o ∷ [])
                (map doubled (select (is_late_plain now) commands)));
    resent_reliable = rw (late, plain) (rw plain at h.resent_reliable);
    rest = h.rest;
  }
]

sweep-IsSwept :
    (now : ℕ) (commands : List OutgoingCommand) (w : Sweep)
    → (sweep now commands w).0 ≡ false
    → IsSwept now commands w (sweep now commands w)
unfolding sweep
sweep-IsSwept now [] w ok = record {
  kept = sym (append-nil w.kept);
  resent = sym (append-nil w.resent);
  resent_reliable = sym (append-nil w.resent_reliable);
  rest = refl;
}
sweep-IsSwept now (o ∷ commands) w ok =
    let p = note_timeout o w.peer in
    if_lem
      (λ (end : Bool × Sweep × List OutgoingCommand).
        end.0 ≡ false → IsSwept now (o ∷ commands) w end)
      (in_time now o)
      (λ early good.
        stay-IsSwept now o commands w (sweep now commands (record w { kept = w.kept ++ o ∷ [] }))
          early (sweep-IsSwept now commands (record w { kept = w.kept ++ o ∷ [] }) good))
      (λ late.
        if_lem
          (λ (end : Bool × Sweep × List OutgoingCommand).
            end.0 ≡ false → IsSwept now (o ∷ commands) w end)
          (is_lost now o p) (λ _ bad. cc)
          (λ _ good.
            move-IsSwept now o commands w p
              (sweep now commands (send_again o commands (record w { peer = p }))) late
              (sweep-IsSwept now commands (send_again o commands (record w { peer = p })) good)))
      ok

pub record IsResent (now : ℕ) (before after : Peer) : Type 0 where
  pub sent : after.sent_reliable_commands ≡ select (in_time now) before.sent_reliable_commands
  pub plain :
      after.outgoing_commands
      ≡ map doubled (select (is_late_plain now) before.sent_reliable_commands)
        ++ before.outgoing_commands
  pub reliable :
      after.outgoing_send_reliable_commands
      ≡ map doubled (select (is_late_packet now) before.sent_reliable_commands)
        ++ before.outgoing_send_reliable_commands

finished :
    (now : ℕ) (p : Peer) (end : Bool × Sweep × List OutgoingCommand)
    → IsSwept now p.sent_reliable_commands (start_sweep p) end
    → IsResent now p (finish_sweep p end.1 end.2)
finished now p end h = record {
  sent = rw (h.kept, h.rest) (append-nil (select (in_time now) p.sent_reliable_commands));
  plain = ap (λ l. l ++ p.outgoing_commands) h.resent;
  reliable = ap (λ l. l ++ p.outgoing_send_reliable_commands) h.resent_reliable;
}

-- When the peer is not given up, the commands that are still in time stay in sentReliableCommands, in
-- their order; the late ones return, in their order and with twice the timeout (modulo 2^32), to the
-- front of the queue they came from: of outgoingSendReliableCommands with a packet, of
-- outgoingCommands without one. No other command enters or leaves the three queues.
pub check_timeouts-IsResent :
    (s : Session) (event : Option Event)
    → (check_timeouts s event).0 ≡ false
    → IsResent s.host.service_time s.peer (check_timeouts s event).2.peer
unfolding check_timeouts
check_timeouts-IsResent s event ok =
    let now = s.host.service_time in
    let end = sweep now s.peer.sent_reliable_commands (start_sweep s.peer) in
    let t = with_peer s (finish_sweep s.peer end.1 end.2) in
    if_lem (λ (r : Bool × Option Event × Session). r.0 ≡ false → IsResent now s.peer r.2.peer) end.0
      (λ _ bad. cc)
      (λ good _.
        finished now s.peer end
          (sweep-IsSwept now s.peer.sent_reliable_commands (start_sweep s.peer) good))
      ok
