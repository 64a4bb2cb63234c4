-- ===== src/Peer/Send.antt =====
-- Sending and receiving packets: enet_peer_send and enet_peer_receive of src/peer.c. A return value
-- of 0 is true, one of -1 is false. The loop that cuts a packet into fragments runs on fuel; `send`
-- gives it one round more than the packet has bytes.
pub mod Fragments
pub mod Atomic
pub mod Sequence
use enet_revamp.Base.{
  ℕ, zero, suc, ◌+◌, ◌-◌, ◌/◌, Bool, true, false, not, ◌&&◌, ◌||◌, ◌==◌, ltb, leb, if◌then◌else◌,
  Option, none, some, List, [], ◌∷◌, length, is_some, u16, u32, sub64, bit,
}
use enet_revamp.Protocol.{
  Protocol, Body, protocol, flag_acknowledge, flag_unsequenced, maximum_fragment_count,
}
use enet_revamp.Protocol.Command
use enet_revamp.State.{
  Packet, Memory, OutgoingCommand, IncomingCommand, Channel, Peer, Host, Session, is_state,
  connected, flag_reliable, flag_unsequenced_packet, flag_unreliable_fragment,
}
use enet_revamp.Packet.{malloc, retain, put}
use enet_revamp.Session.{with_peer, with_memory, memory, channel_at}
use enet_revamp.Peer.Outgoing.{setup_outgoing_command, queue_outgoing_command, outgoing}

-- What the fragments of one packet have in common.
pub record Plan : Type 0 where
  pub packet : ℕ
  pub channel_id : ℕ
  pub command_number : ℕ
  pub start_sequence_number : ℕ
  pub fragment_count : ℕ
  pub total_length : ℕ

-- The fragment with the given number, offset and length.
abbrev pub fragment : Plan → ℕ → ℕ → ℕ → OutgoingCommand
fragment plan number offset len =
    outgoing
      (protocol plan.command_number plan.channel_id (
        Body.send_fragment (record {
          start_sequence_number = plan.start_sequence_number;
          data_length = u16 len;
          fragment_count = plan.fragment_count;
          fragment_number = number;
          total_length = u32 plan.total_length;
          fragment_offset = offset;
        })))
      (some plan.packet) offset (u16 len)

unfoldable pub prepend :
    OutgoingCommand
    → Option (List OutgoingCommand) × Memory
    → Option (List OutgoingCommand) × Memory
prepend o (none, m) = (none, m)
prepend o (some rest, m) = (some (o ∷ rest), m)

-- The loop over the fragments: number, offset and length are its variables. When memory runs out
-- the fragments made so far go back and nothing else has changed.
unfoldable pub cut : ℕ → Plan → ℕ → ℕ → ℕ → Memory → Option (List OutgoingCommand) × Memory
cut zero plan number offset len m = (none, m)
cut (suc fuel) plan number offset len m =
    let left = sub64 plan.total_length offset in
    let len' = if ltb left len then left else len in
    let next : Option (List OutgoingCommand) × Memory = elim (malloc m).0 [
      | none ↦ (none, (malloc m).1)
      | some b ↦
          prepend (fragment plan number offset len')
            (cut fuel plan (u32 (number + 1)) (u32 (offset + len')) len' (malloc m).1)
    ] in
    if ltb offset plan.total_length then next else (some [], m)

-- The loop that hands the fragments to enet_peer_setup_outgoing_command.
unfoldable pub setup_all : Session → List OutgoingCommand → Session
setup_all s [] = s
setup_all s (o ∷ rest) = setup_all (setup_outgoing_command s o) rest

-- The size of the payload that one datagram can carry.
unfoldable pub payload_size : Session → ℕ
payload_size s =
    if is_some s.host.checksum then sub64 (sub64 s.peer.mtu 28) 4 else sub64 s.peer.mtu 28

abbrev is_unreliable_fragment : Packet → Channel → Bool
is_unreliable_fragment p c =
    bit flag_unreliable_fragment p.flags
    && (not (bit flag_reliable p.flags) && ltb c.outgoing_unreliable_sequence_number 0xFFFF)

unfoldable pub plan_fragments : Session → ℕ → ℕ → Packet → ℕ → Plan
unfolding bit
plan_fragments s k a p len =
    let c = channel_at s.peer k in
    record {
      packet = a;
      channel_id = k;
      command_number =
          if is_unreliable_fragment p c
          then Command.send_unreliable_fragment
          else Command.send_fragment + flag_acknowledge;
      start_sequence_number =
          if is_unreliable_fragment p c
          then u16 (c.outgoing_unreliable_sequence_number + 1)
          else u16 (c.outgoing_reliable_sequence_number + 1);
      fragment_count = u32 ((p.data_length + len - 1) / len);
      total_length = p.data_length;
    }

unfoldable pub finish_fragments :
    Session → ℕ → Option (List OutgoingCommand) × Memory → Bool × Session
finish_fragments s a (none, m) = (false, with_memory s m)
finish_fragments s a (some fragments, m) =
    (true, setup_all (with_memory s (retain (length fragments) a m)) fragments)

-- The part of enet_peer_send for a packet that does not fit into one datagram.
unfoldable pub send_fragments : Session → ℕ → ℕ → Packet → Bool × Session
send_fragments s k a p =
    let len = payload_size s in
    let plan = plan_fragments s k a p len in
    if ltb maximum_fragment_count plan.fragment_count
    then (false, s)
    else finish_fragments s a (cut (suc p.data_length) plan 0 0 len (memory s))

-- The command for a packet that fits.
unfoldable pub whole_command : Peer → ℕ → Packet → Protocol
unfolding bit
whole_command peer k p =
    if bit flag_unsequenced_packet p.flags && not (bit flag_reliable p.flags)
    then protocol (Command.send_unsequenced + flag_unsequenced) k
        (Body.send_unsequenced (record { unsequenced_group = 0; data_length = u16 p.data_length }))
    else if bit flag_reliable p.flags
        || leb 0xFFFF (channel_at peer k).outgoing_unreliable_sequence_number
    then protocol (Command.send_reliable + flag_acknowledge) k
        (Body.send_reliable (u16 p.data_length))
    else protocol Command.send_unreliable k (
        Body.send_unreliable
          (record { unreliable_sequence_number = 0; data_length = u16 p.data_length }))

unfoldable pub send_packet : Session → ℕ → ℕ → Packet → Bool × Session
send_packet s k a p =
    if not (is_state s.peer.state connected)
      || (leb s.peer.channel_count k || ltb s.host.maximum_packet_size p.data_length)
    then (false, s)
    else if ltb (payload_size s) p.data_length
    then send_fragments s k a p
    else queue_outgoing_command s (whole_command s.peer k p) (some a) 0 p.data_length

-- enet_peer_send, of the packet at an address.
unfoldable pub send : Session → ℕ → ℕ → Bool × Session
send s k a = elim ((memory s).packets a) [ none ↦ (false, s) | some p ↦ send_packet s k a p ]

-- `--packet->referenceCount` of enet_peer_receive, which hands the packet to the application.
unfoldable pub hand_over : ℕ → Memory → Memory
hand_over a m = elim (m.packets a) [
  | none ↦ m
  | some p ↦ put m a (record p { reference_count = sub64 p.reference_count 1 })
]

data_length_at : ℕ → Memory → ℕ
data_length_at a m = elim (m.packets a) [ none ↦ 0 | some p ↦ p.data_length ]

receive_from : Session → List IncomingCommand → Option (ℕ × ℕ) × Session
unfolding hand_over data_length_at
receive_from s [] = (none, s)
receive_from s (c ∷ rest) = elim c.packet [
  | none ↦ (none, with_peer s (record (s.peer) { dispatched_commands = rest }))
  | some a ↦ (
    some (a, c.command.header.channel_id),
    with_peer (with_memory s (hand_over a (memory s))) (record (s.peer) {
      dispatched_commands = rest;
      total_waiting_data = sub64 s.peer.total_waiting_data (data_length_at a (memory s));
    }),
  )
]

-- enet_peer_receive: the first dispatched packet and its channel. A dispatched command always has
-- a packet; C would dereference NULL for one that has none.
unfoldable pub receive : Session → Option (ℕ × ℕ) × Session
unfolding receive_from
receive s = receive_from s s.peer.dispatched_commands
