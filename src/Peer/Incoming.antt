-- ===== src/Peer/Incoming.antt =====
-- Queueing a received command: enet_peer_queue_incoming_command of src/peer.c. The source looks
-- for the place from the back of the queue; in the model the search runs over the reversed queue and
-- answers with the number of commands that stand before the place, or that the command is discarded.
pub mod Order
pub mod Standing
use mathlib.Core.List.{reverse}
use enet_revamp.Base.{
  ℕ, ◌+◌, ◌/◌, Bool, true, false, not, ◌&&◌, ◌||◌, ◌==◌, ltb, leb, if◌then◌else◌, Option, none,
  some, List, [], ◌∷◌, ◌++◌, length, take, drop, u16, u64,
}
use enet_revamp.Protocol.{
  Protocol, Body, SendUnreliable, SendFragment, kind, maximum_fragment_count,
}
use enet_revamp.Protocol.Command
use enet_revamp.State.{
  IncomingCommand, Memory, Packet, Channel, Peer, Session, is_state, disconnect_later,
}
use enet_revamp.Packet.{malloc, create, destroy, retain}
use enet_revamp.Session.{with_peer, with_memory, memory, channel_at, with_channel}
use enet_revamp.Peer.Dispatch.{in_window, dispatch_reliable, dispatch_unreliable}

-- Where a command goes: behind that many commands, or nowhere.
pub data Place : Type 0 where
  behind : ℕ → Place
  discard : Place

-- Both queues are ordered by distance from the channel's reliable number; a number below it has
-- wrapped. `skips`: the command looked at has wrapped and the new one has not. `stops`: the other
-- way round.
abbrev pub skips : ℕ → ℕ → IncomingCommand → Bool
skips current number c = leb current number && ltb c.reliable_sequence_number current

abbrev pub stops : ℕ → ℕ → IncomingCommand → Bool
stops current number c = ltb number current && leb current c.reliable_sequence_number

-- The search among the reliable commands, from the back.
unfoldable pub place_reliable : ℕ → ℕ → List IncomingCommand → Place
place_reliable current number [] = behind 0
place_reliable current number (c ∷ before) =
    let further = place_reliable current number before in
    if skips current number c
    then further
    else if stops current number c
    then behind (length (c ∷ before))
    else if ltb c.reliable_sequence_number number
    then behind (length (c ∷ before))
    else if c.reliable_sequence_number == number
    then discard
    else further

-- The search among the unreliable commands. The test of the source for an unsequenced command is
-- on the new command, which is none here.
unfoldable pub place_unreliable : ℕ → ℕ → ℕ → List IncomingCommand → Place
place_unreliable current number unreliable [] = behind 0
place_unreliable current number unreliable (c ∷ before) =
    let further = place_unreliable current number unreliable before in
    if skips current number c
    then further
    else if stops current number c
    then behind (length (c ∷ before))
    else if ltb c.reliable_sequence_number number
    then behind (length (c ∷ before))
    else if ltb number c.reliable_sequence_number
    then further
    else if ltb c.unreliable_sequence_number unreliable
    then behind (length (c ∷ before))
    else if c.unreliable_sequence_number == unreliable
    then discard
    else further

-- `command->sendUnreliable.unreliableSequenceNumber`: of a fragment, the start sequence number
-- stands at that place of the union.
abbrev pub unreliable_number : Body → ℕ
unreliable_number (Body.send_unreliable b) = b.unreliable_sequence_number
unreliable_number (Body.send_fragment b) = b.start_sequence_number
unreliable_number b = 0

abbrev pub is_reliable_kind : ℕ → Bool
is_reliable_kind k = k == Command.send_fragment || k == Command.send_reliable

abbrev pub is_unreliable_kind : ℕ → Bool
is_unreliable_kind k = k == Command.send_unreliable || k == Command.send_unreliable_fragment

-- The `switch`: the place in the queue of the command's kind.
unfoldable pub place : Channel → Protocol → Place
place c command =
    let k = kind command.header.command in
    let current = c.incoming_reliable_sequence_number in
    let number = command.header.reliable_sequence_number in
    let unreliable = unreliable_number command.body in
    if is_reliable_kind k
    then (if number == current
        then discard
        else place_reliable current number (reverse c.incoming_reliable_commands))
    else if is_unreliable_kind k
    then (if number == current && leb unreliable c.incoming_unreliable_sequence_number
        then discard
        else place_unreliable current number unreliable (reverse c.incoming_unreliable_commands))
    else if k == Command.send_unsequenced
    then behind 0
    else discard

-- The guards before the `switch`: no command is queued while a disconnect is pending, and a
-- sequenced command must lie in the receive window.
unfoldable pub accepts : Peer → Protocol → Bool
accepts p command =
    let c = channel_at p command.header.channel_id in
    not (is_state p.state disconnect_later)
    && (kind command.header.command == Command.send_unsequenced
        || in_window c.incoming_reliable_sequence_number command.header.reliable_sequence_number)

-- What enet_peer_queue_incoming_command returns: NULL, the dummy command, or the new command.
pub data Queued : Type 0 where
  failed dummy : Queued
  fresh : ℕ → Queued

-- The label discardCommand, reached before a packet exists.
abbrev pub discarded : ℕ → Queued
discarded fragment_count = if fragment_count == 0 then dummy else failed

abbrev pub insert_at : ℕ → IncomingCommand → List IncomingCommand → List IncomingCommand
insert_at n c queue = take n queue ++ c ∷ drop n queue

abbrev pub enqueue : Channel → ℕ → IncomingCommand → Channel
enqueue c n new =
    if is_reliable_kind (kind new.command.header.command)
    then record c { incoming_reliable_commands = insert_at n new c.incoming_reliable_commands }
    else record c { incoming_unreliable_commands = insert_at n new c.incoming_unreliable_commands }

abbrev pub dispatch : Session → ℕ → IncomingCommand → Session
dispatch s k new =
    if is_reliable_kind (kind new.command.header.command)
    then dispatch_reliable s k (some new.address)
    else dispatch_unreliable s k (some new.address)

-- An incoming command in a new block. `unreliable` is the local unreliableSequenceNumber, which
-- stays 0 but for the unreliable kinds.
unfoldable pub incoming : ℕ → Protocol → ℕ → Option (ℕ → Bool) → ℕ → IncomingCommand
incoming a command count fragments packet = record {
  address = a;
  reliable_sequence_number = command.header.reliable_sequence_number;
  unreliable_sequence_number =
      if is_unreliable_kind (kind command.header.command)
      then u16 (unreliable_number command.body)
      else 0;
  command = command;
  fragment_count = count;
  fragments_remaining = count;
  fragments = fragments;
  packet = some packet;
}

-- The command enters its queue and is dispatched.
unfoldable pub admit : Session → ℕ → ℕ → IncomingCommand → ℕ → Memory → Queued × Session
admit s n len new packet m =
    let k = new.command.header.channel_id in
    let t = with_memory s (retain 1 packet m) in
    let p = record (t.peer) { total_waiting_data = u64 (t.peer.total_waiting_data + len) } in
    (
      fresh new.address,
      dispatch (with_peer t (with_channel p k (enqueue (channel_at p k) n new))) k new,
    )

-- The bitmap of a fragmented command; where it cannot be had, the packet is destroyed.
unfoldable pub admit_fragmented : Session → Protocol → ℕ → ℕ → ℕ → ℕ → ℕ → Memory → Queued × Session
admit_fragmented s command n len count packet a m =
    let bitmap = malloc m in
    if leb count maximum_fragment_count
    then elim bitmap.0 [
      | none ↦ (failed, with_memory s (destroy packet bitmap.1))
      | some b ↦ admit s n len (incoming a command count (some (λ _. false)) packet) packet bitmap.1
    ]
    else (failed, with_memory s (destroy packet m))

-- The command itself; the label notifyError destroys the packet.
unfoldable pub admit_packet :
    Session → Protocol → ℕ → ℕ → ℕ → ℕ → Option ℕ × Memory → Queued × Session
admit_packet s command n len count packet (none, m) = (failed, with_memory s (destroy packet m))
admit_packet s command n len count packet (some a, m) =
    if count == 0
    then admit s n len (incoming a command count none packet) packet m
    else admit_fragmented s command n len count packet a m

unfoldable pub admit_created : Session → Protocol → ℕ → ℕ → ℕ → Option ℕ × Memory → Queued × Session
admit_created s command n len count (none, m) = (failed, with_memory s m)
admit_created s command n len count (some packet, m) =
    admit_packet s command n len count packet (malloc m)

-- After the `switch`: the limit on waiting data, then the allocations.
unfoldable pub queue_at :
    Session → Protocol → Option (ℕ → Option ℕ) → ℕ → ℕ → ℕ → Place → Queued × Session
queue_at s command bytes len flags count discard = (discarded count, s)
queue_at s command bytes len flags count (behind n) =
    if leb s.host.maximum_waiting_data s.peer.total_waiting_data
    then (failed, s)
    else admit_created s command n len count (create (memory s) bytes len flags)

-- enet_peer_queue_incoming_command.
unfoldable pub queue_incoming_command :
    Session → Protocol → Option (ℕ → Option ℕ) → ℕ → ℕ → ℕ → Queued × Session
queue_incoming_command s command bytes len flags count =
    if accepts s.peer command
    then queue_at s command bytes len flags count
        (place (channel_at s.peer command.header.channel_id) command)
    else (discarded count, s)
