-- ===== src/Sending/Timeouts.antt =====
-- Reliable commands that were not acknowledged in time: enet_protocol_check_timeouts of
-- src/protocol.c. The source moves them out of sentReliableCommands while it walks that list, to a
-- fixed position in front of the commands that wait to be sent; a `Sweep` is the walk's state.
pub mod Resent
use enet_revamp.Base.{
  ℕ, ◌+◌, ◌-◌, ◌*◌, ◌^◌, Bool, true, false, not, ◌&&◌, ◌||◌, ◌==◌, leb, ltb, if◌then◌else◌, Option,
  none, some, List, [], ◌∷◌, ◌++◌, is_empty, is_some, u32, sub32,
}
use enet_revamp.Time.{time_less, time_difference}
use enet_revamp.State.{OutgoingCommand, Peer, Session, Event}
use enet_revamp.Session.{with_peer}
use enet_revamp.Handle.States.{notify_disconnect}

-- The commands walked over that are still in time, those that go back to the two queues, and the
-- peer with its counters; its queues are out of date.
pub record Sweep : Type 0 where
  pub kept : List OutgoingCommand
  pub resent : List OutgoingCommand
  pub resent_reliable : List OutgoingCommand
  pub peer : Peer

abbrev pub in_time : ℕ → OutgoingCommand → Bool
in_time now o = ltb (time_difference now o.sent_time) o.round_trip_timeout

-- `earliestTimeout`, the sending time of the command that has waited longest.
unfoldable pub note_timeout : OutgoingCommand → Peer → Peer
unfolding time_less
note_timeout o p = record p {
  earliest_timeout =
      if p.earliest_timeout == 0 || time_less o.sent_time p.earliest_timeout
      then o.sent_time
      else p.earliest_timeout;
}

-- The peer is given up: it has not answered for the longest time, or for the shortest and this
-- command has been tried too often. C leaves the shift undefined from 32 attempts on.
unfoldable pub is_lost : ℕ → OutgoingCommand → Peer → Bool
unfolding time_difference
is_lost now o p =
    not (p.earliest_timeout == 0)
    && (leb p.timeout_maximum (time_difference now p.earliest_timeout)
        || leb p.timeout_limit (2 ^ (o.send_attempts - 1))
          && leb p.timeout_minimum (time_difference now p.earliest_timeout))

-- The command goes back with twice the timeout.
abbrev pub doubled : OutgoingCommand → OutgoingCommand
doubled o = record o { round_trip_timeout = u32 (o.round_trip_timeout * 2) }

-- `nextTimeout`, when the first command of the list was moved and another one is first now.
unfoldable pub timeout_of_next : List OutgoingCommand → List OutgoingCommand → ℕ → ℕ
timeout_of_next kept [] time = time
timeout_of_next [] (o ∷ rest) time = u32 (o.sent_time + o.round_trip_timeout)
timeout_of_next (k ∷ kept) (o ∷ rest) time = time

abbrev pub count_lost : List OutgoingCommand → OutgoingCommand → List OutgoingCommand → Peer → Peer
count_lost kept o rest p = record p {
  packets_lost = u32 (p.packets_lost + 1);
  reliable_data_in_transit =
      if is_some o.packet
      then sub32 p.reliable_data_in_transit o.fragment_length
      else p.reliable_data_in_transit;
  next_timeout = timeout_of_next kept rest p.next_timeout;
}

unfoldable pub send_again : OutgoingCommand → List OutgoingCommand → Sweep → Sweep
unfolding timeout_of_next
send_again o rest w = record w {
  resent = if is_some o.packet then w.resent else w.resent ++ doubled o ∷ [];
  resent_reliable =
      if is_some o.packet then w.resent_reliable ++ doubled o ∷ [] else w.resent_reliable;
  peer = count_lost w.kept o rest w.peer;
}

-- The walk: true when the peer is given up. The rest of the list is what it has not walked over.
unfoldable pub sweep : ℕ → List OutgoingCommand → Sweep → Bool × Sweep × List OutgoingCommand
unfolding time_difference note_timeout is_lost send_again
sweep now [] w = (false, w, [])
sweep now (o ∷ rest) w =
    let v = record w { peer = note_timeout o w.peer } in
    let stay = sweep now rest (record w { kept = w.kept ++ o ∷ [] }) in
    let move = sweep now rest (send_again o rest v) in
    if in_time now o then stay else if is_lost now o v.peer then (true, v, o ∷ rest) else move

abbrev pub start_sweep : Peer → Sweep
start_sweep p = record { kept = []; resent = []; resent_reliable = []; peer = p }

-- The queues as the walk leaves them.
abbrev pub finish_sweep : Peer → Sweep → List OutgoingCommand → Peer
finish_sweep p w rest = record (w.peer) {
  sent_reliable_commands = w.kept ++ rest;
  outgoing_commands = w.resent ++ p.outgoing_commands;
  outgoing_send_reliable_commands = w.resent_reliable ++ p.outgoing_send_reliable_commands;
}

-- enet_protocol_check_timeouts: true for 1.
unfoldable pub check_timeouts : Session → Option Event → Bool × Option Event × Session
unfolding sweep notify_disconnect
check_timeouts s event =
    let (lost, w, rest) =
      sweep s.host.service_time s.peer.sent_reliable_commands (start_sweep s.peer) in
    let t = with_peer s (finish_sweep s.peer w rest) in
    if lost
    then (true, (notify_disconnect t event).0, (notify_disconnect t event).1)
    else (false, event, t)
