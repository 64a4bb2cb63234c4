-- ===== src/Sending/Fill.antt =====
-- Commands that go out: enet_protocol_check_outgoing_commands of src/protocol.c. The loop walks over
-- outgoingCommands and outgoingSendReliableCommands at once, the older command first. A command that
-- it walks past stays in its queue: `skipped` and `skipped_reliable` hold those.
pub mod Walk
pub mod Bounds
pub mod Rounds
pub mod Line
pub mod Order
use enet_revamp.Base.{
  ℕ, zero, suc, ◌+◌, ◌%◌, Bool, true, false, not, ◌&&◌, ◌||◌, ◌==◌, leb, ltb, if◌then◌else◌, Option,
  none, some, List, [], ◌∷◌, ◌++◌, length, is_empty, is_some, u16, u32, sub64,
}
use enet_revamp.Time.{time_less}
use enet_revamp.Protocol.{wants_acknowledge, command_size}
use enet_revamp.State.{Memory, OutgoingCommand, Peer, Host, Session, is_state, PeerState}
use enet_revamp.Packet.{release_option}
use enet_revamp.Session.{channel_at}
use enet_revamp.Peer.Outgoing.{has_outgoing_commands}
use enet_revamp.Peer.Disconnect.{disconnect}
use enet_revamp.Sending.Datagram.{Datagram, buffer_maximum, add_part, has_no_command}
use enet_revamp.Sending.Windows.{is_blocked, has_channel, is_past_window, send_reliable}

-- The loop's variables. `unreliable` is the list sentUnreliableCommands of the caller; the two
-- queues of `peer` are out of date.
pub record Filling : Type 0 where
  pub peer : Peer
  pub memory : Memory
  pub skipped : List OutgoingCommand
  pub skipped_reliable : List OutgoingCommand
  pub unreliable : List OutgoingCommand
  pub window_wrap : Bool
  pub can_ping : Bool
  pub datagram : Datagram

-- The command of one round, and what is left of the two queues behind it.
pub record Pick : Type 0 where
  pub command : OutgoingCommand
  pub from_reliable : Bool
  pub plain : List OutgoingCommand
  pub reliable : List OutgoingCommand

unfoldable pub pick : List OutgoingCommand → List OutgoingCommand → Option Pick
unfolding time_less
pick [] [] = none
pick [] (r ∷ reliable) =
    some (record { command = r; from_reliable = true; plain = []; reliable = reliable })
pick (o ∷ plain) [] =
    some (record { command = o; from_reliable = false; plain = plain; reliable = [] })
pick (o ∷ plain) (r ∷ reliable) =
    if time_less r.queue_time o.queue_time
    then some (record { command = r; from_reliable = true; plain = o ∷ plain; reliable = reliable })
    else some
        (record { command = o; from_reliable = false; plain = plain; reliable = r ∷ reliable })

-- How a round ends: the loop stops, or goes on with the rest of the queues.
pub data Round : Type 0 where
  stop : Filling → Round
  go_on : List OutgoingCommand → List OutgoingCommand → Filling → Round

abbrev pub skip : List OutgoingCommand → List OutgoingCommand → Filling → Filling
skip plain reliable w = record w {
  skipped = w.skipped ++ plain;
  skipped_reliable = w.skipped_reliable ++ reliable;
}

-- The command of the round stays where it is.
unfoldable pub leave : Pick → Filling → Filling
leave k w = if k.from_reliable then skip [] (k.command ∷ []) w else skip (k.command ∷ []) [] w

-- `continue`, and the same with `currentSendReliableCommand` set to the end of its queue.
abbrev pub pass : Pick → Filling → Round
pass k w = go_on k.plain k.reliable (leave k w)

abbrev pub pass_reliable : Pick → Filling → Round
pass_reliable k w = go_on k.plain [] (skip [] k.reliable (leave k w))

-- The datagram has no room for the command.
unfoldable pub has_no_room : ℕ → OutgoingCommand → Datagram → Bool
has_no_room mtu o d =
    let size = command_size o.command.header.command in
    has_no_command d
    || (leb buffer_maximum (d.buffer_count + 1)
        || (ltb (sub64 mtu d.packet_size) size
            || is_some o.packet
              && ltb (u16 (sub64 mtu d.packet_size)) (u16 (size + o.fragment_length))))

-- `peer->flags |= ENET_PEER_FLAG_CONTINUE_SENDING; break`: the rest of the queues stays.
unfoldable pub break_off : Pick → Filling → Filling
unfolding leave
break_off k w =
    let v = skip k.plain k.reliable (leave k w) in
    record v { peer = record (v.peer) { continue_sending = true } }

-- The buffers of the command and of its data.
unfoldable pub write : OutgoingCommand → Datagram → Datagram
write o d =
    let size = command_size o.command.header.command in
    elim o.packet [
      | none ↦ add_part (record { command = o.command; contents = none }) 1 size d
      | some a ↦
          add_part
            (record {
              command = o.command;
              contents = some (a, o.fragment_offset, o.fragment_length);
            })
            2 (size + o.fragment_length) d
    ]

unfoldable pub write_out : OutgoingCommand → Filling → Filling
unfolding write
write_out o w = record w {
  peer = record (w.peer) { packets_sent = u32 (w.peer.packets_sent + 1) };
  datagram = write o w.datagram;
}

abbrev pub with_sent_time : Datagram → Datagram
with_sent_time d = record d { carries_sent_time = true }

unfoldable pub emit_reliable : ℕ → OutgoingCommand → Filling → Filling
unfolding send_reliable write_out
emit_reliable now o w =
    write_out o
      (record w { peer = send_reliable now o w.peer; datagram = with_sent_time w.datagram })

unfoldable pub emit_unreliable : OutgoingCommand → Filling → Filling
unfolding write_out
emit_unreliable o w =
    write_out o
      (record w { unreliable = if is_some o.packet then w.unreliable ++ o ∷ [] else w.unreliable })

-- `packetThrottleCounter` steps at the first command of each unacknowledged packet.
abbrev pub is_first : OutgoingCommand → Bool
is_first o = is_some o.packet && o.fragment_offset == 0

unfoldable pub step_throttle : OutgoingCommand → Peer → Peer
step_throttle o p =
    if is_first o
    then record p { packet_throttle_counter = u32 (p.packet_throttle_counter + 7) % 32 }
    else p

abbrev pub is_throttled : OutgoingCommand → Peer → Bool
is_throttled o p = is_first o && ltb p.packet_throttle p.packet_throttle_counter

abbrev pub same_numbers : OutgoingCommand → OutgoingCommand → Bool
same_numbers o c =
    c.reliable_sequence_number == o.reliable_sequence_number
    && c.unreliable_sequence_number == o.unreliable_sequence_number

-- The commands with the numbers of a throttled one go with it. `--referenceCount` on NULL, which C
-- leaves undefined, changes nothing.
unfoldable pub drop_same :
    OutgoingCommand → List OutgoingCommand → Memory → List OutgoingCommand × Memory
unfolding release_option
drop_same o [] m = ([], m)
drop_same o (c ∷ rest) m =
    let next = drop_same o rest (release_option c.packet m) in
    if same_numbers o c then next else (c ∷ rest, m)

unfoldable pub throttle_packet : Pick → Filling → Round
unfolding drop_same release_option
throttle_packet k w =
    let (plain, m) = drop_same k.command k.plain (release_option k.command.packet w.memory) in
    go_on plain k.reliable (record w { memory = m })

-- From the test for room to the end of the round.
unfoldable pub emit : ℕ → Pick → Filling → Round
unfolding has_no_room break_off emit_reliable emit_unreliable step_throttle throttle_packet
emit now k w =
    let o = k.command in
    let v = record w { peer = step_throttle o w.peer } in
    if has_no_room w.peer.mtu o w.datagram
    then stop (break_off k w)
    else if wants_acknowledge o.command.header.command
    then go_on k.plain k.reliable (emit_reliable now o w)
    else if is_throttled o v.peer
    then throttle_packet k v
    else go_on k.plain k.reliable (emit_unreliable o v)

-- The tests on an acknowledged command, in the source's order.
unfoldable pub consider : ℕ → Pick → Filling → Round
unfolding emit is_blocked is_past_window leave
consider now k w =
    let o = k.command in
    if not (wants_acknowledge o.command.header.command)
    then emit now k w
    else if has_channel o w.peer && w.window_wrap
    then pass k w
    else if has_channel o w.peer && is_blocked o (channel_at w.peer o.command.header.channel_id)
    then pass_reliable k (record w { window_wrap = true })
    else if is_past_window o w.peer
    then pass_reliable k w
    else emit now k (record w { can_ping = false })

unfoldable pub follow :
    (List OutgoingCommand → List OutgoingCommand → Filling → Filling) → Round → Filling
follow next (stop w) = w
follow next (go_on plain reliable w) = next plain reliable w

-- The loop. Each round takes a command from the queues, so as many rounds are enough as they hold.
unfoldable pub fill : ℕ → ℕ → List OutgoingCommand → List OutgoingCommand → Filling → Filling
unfolding pick consider follow
fill zero now plain reliable w = skip plain reliable w
fill (suc n) now plain reliable w = elim (pick plain reliable) [
  | none ↦ w
  | some k ↦ follow (fill n now) (consider now k w)
]

abbrev pub start_filling : List OutgoingCommand → Session → Datagram → Filling
start_filling unreliable s d = record {
  peer = s.peer;
  memory = s.host.memory;
  skipped = [];
  skipped_reliable = [];
  unreliable = unreliable;
  window_wrap = false;
  can_ping = true;
  datagram = d;
}

abbrev pub finish_filling : Session → Filling → Session
finish_filling s w = record {
  host = record (s.host) { memory = w.memory };
  peer = record (w.peer) {
    outgoing_commands = w.skipped;
    outgoing_send_reliable_commands = w.skipped_reliable;
  };
}

unfoldable pub fill_datagram : List OutgoingCommand → Session → Datagram → Filling
unfolding fill
fill_datagram unreliable s d =
    let p = s.peer in
    fill (length p.outgoing_commands + length p.outgoing_send_reliable_commands) s.host.service_time
      p.outgoing_commands p.outgoing_send_reliable_commands (start_filling unreliable s d)

-- enet_protocol_check_outgoing_commands: `can_ping` is its result.
unfoldable pub check_outgoing_commands :
    (Host → Host) → List OutgoingCommand → Session → Datagram → Filling × Session
unfolding fill_datagram disconnect
check_outgoing_commands flush unreliable s d =
    let w = fill_datagram unreliable s d in
    let t = finish_filling s w in
    if is_state t.peer.state PeerState.disconnect_later
      && (not (has_outgoing_commands t.peer) && is_empty w.unreliable)
    then (w, disconnect flush t t.peer.event_data)
    else (w, t)
