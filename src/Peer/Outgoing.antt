-- ===== src/Peer/Outgoing.antt =====
-- Queueing commands to send: enet_peer_setup_outgoing_command, enet_peer_queue_outgoing_command,
-- enet_peer_queue_acknowledgement, enet_peer_ping, enet_peer_throttle_configure and
-- enet_peer_has_outgoing_commands of src/peer.c.
pub mod Numbering
pub mod Standing
use enet_revamp.Base.{
  ℕ, ◌+◌, ◌-◌, ◌/◌, Bool, true, false, not, ◌&&◌, ◌||◌, ◌==◌, ltb, leb, if◌then◌else◌, Option, none,
  some, List, [], ◌∷◌, ◌++◌, is_empty, is_some, u16, u32,
}
use enet_revamp.Protocol.{
  Protocol, Body, SendUnreliable, SendUnsequenced, protocol, kind, wants_acknowledge,
  is_unsequenced, flag_acknowledge, command_size,
}
use enet_revamp.Protocol.Command
use enet_revamp.State.{
  Memory, Acknowledgement, OutgoingCommand, Channel, Peer, Host, Session, is_state, connected,
}
use enet_revamp.Packet.{malloc, retain}
use enet_revamp.Session.{with_peer, with_memory, memory, channel_at, with_channel}

abbrev pub next_outgoing_reliable : Channel → Channel
next_outgoing_reliable c = record c {
  outgoing_reliable_sequence_number = u16 (c.outgoing_reliable_sequence_number + 1);
  outgoing_unreliable_sequence_number = 0;
}

abbrev next_outgoing_unreliable : OutgoingCommand → Channel → Channel
next_outgoing_unreliable o c =
    if o.fragment_offset == 0
    then record c {
      outgoing_unreliable_sequence_number = u16 (c.outgoing_unreliable_sequence_number + 1);
    }
    else c

abbrev numbered : ℕ → ℕ → OutgoingCommand → OutgoingCommand
numbered reliable unreliable o = record o {
  reliable_sequence_number = reliable;
  unreliable_sequence_number = unreliable;
}

-- The sequence numbers that a command is given, and the counters of its peer or channel.
unfoldable pub number_command : Peer → OutgoingCommand → Peer × OutgoingCommand
number_command p o =
    let k = o.command.header.channel_id in
    let c = channel_at p k in
    let acknowledged = next_outgoing_reliable c in
    let unreliable = next_outgoing_unreliable o c in
    let n = u16 (p.outgoing_reliable_sequence_number + 1) in
    if k == 0xFF
    then (record p { outgoing_reliable_sequence_number = n }, numbered n 0 o)
    else if wants_acknowledge o.command.header.command
    then (
      with_channel p k acknowledged,
      numbered acknowledged.outgoing_reliable_sequence_number 0 o,
    )
    else if is_unsequenced o.command.header.command
    then (
      record p { outgoing_unsequenced_group = u16 (p.outgoing_unsequenced_group + 1) },
      numbered 0 0 o,
    )
    else (
      with_channel p k unreliable,
      numbered unreliable.outgoing_reliable_sequence_number
          unreliable.outgoing_unreliable_sequence_number o,
    )

set_unreliable_number : ℕ → Body → Body
set_unreliable_number n (Body.send_unreliable b) =
    Body.send_unreliable (record b { unreliable_sequence_number = n })
set_unreliable_number n b = b

set_unsequenced_group : ℕ → Body → Body
set_unsequenced_group n (Body.send_unsequenced b) =
    Body.send_unsequenced (record b { unsequenced_group = n })
set_unsequenced_group n b = b

-- The `switch` that writes the numbers into the command's body.
unfoldable pub stamp_body : Peer → OutgoingCommand → Body
unfolding set_unreliable_number set_unsequenced_group
stamp_body p o =
    let k = kind o.command.header.command in
    if k == Command.send_unreliable
    then set_unreliable_number o.unreliable_sequence_number o.command.body
    else if k == Command.send_unsequenced
    then set_unsequenced_group p.outgoing_unsequenced_group o.command.body
    else o.command.body

unfoldable pub stamp : Peer → ℕ → OutgoingCommand → OutgoingCommand
stamp p time o = record o {
  send_attempts = 0;
  sent_time = 0;
  round_trip_timeout = 0;
  queue_time = time;
  command = record {
    header = record (o.command.header) { reliable_sequence_number = o.reliable_sequence_number };
    body = stamp_body p o;
  };
}

-- Acknowledged commands that carry a packet wait in a queue of their own.
unfoldable pub enqueue : Peer → OutgoingCommand → Peer
enqueue p o =
    if wants_acknowledge o.command.header.command && is_some o.packet
    then record p { outgoing_send_reliable_commands = p.outgoing_send_reliable_commands ++ o ∷ [] }
    else record p { outgoing_commands = p.outgoing_commands ++ o ∷ [] }

-- enet_peer_setup_outgoing_command.
unfoldable pub setup_outgoing_command : Session → OutgoingCommand → Session
setup_outgoing_command s o =
    let total =
      u32 (
        s.peer.outgoing_data_total + (command_size o.command.header.command + o.fragment_length)) in
    let (p, o') = number_command (record (s.peer) { outgoing_data_total = total }) o in
    let time = u32 (s.host.total_queued + 1) in
    record { host = record (s.host) { total_queued = time }; peer = enqueue p (stamp p time o') }

abbrev pub outgoing : Protocol → Option ℕ → ℕ → ℕ → OutgoingCommand
outgoing command packet offset length = record {
  reliable_sequence_number = 0;
  unreliable_sequence_number = 0;
  sent_time = 0;
  round_trip_timeout = 0;
  queue_time = 0;
  fragment_offset = offset;
  fragment_length = length;
  send_attempts = 0;
  command = command;
  packet = packet;
}

-- `if (packet != NULL) ++packet->referenceCount`.
unfoldable pub retain_option : Option ℕ → Memory → Memory
unfolding retain
retain_option none m = m
retain_option (some a) m = retain 1 a m

unfoldable pub queue_allocated :
    Session → Protocol → Option ℕ → ℕ → ℕ → Option ℕ × Memory → Bool × Session
queue_allocated s command packet offset length (none, m) = (false, with_memory s m)
queue_allocated s command packet offset length (some a, m) = (
  true,
  setup_outgoing_command (with_memory s (retain_option packet m))
      (outgoing command packet offset (u16 length)),
)

-- enet_peer_queue_outgoing_command: false for NULL.
unfoldable pub queue_outgoing_command : Session → Protocol → Option ℕ → ℕ → ℕ → Bool × Session
queue_outgoing_command s command packet offset length =
    queue_allocated s command packet offset length (malloc (memory s))

-- The reliable window of a sequence number, counted on from the channel's when it has wrapped.
unfoldable pub window_of : ℕ → ℕ → ℕ
window_of current number = if ltb number current then u16 (number / 4096 + 16) else number / 4096

-- The guard of enet_peer_queue_acknowledgement: the command lies in a window that is not free.
outside_window : Peer → Protocol → Bool
outside_window p command =
    let c = channel_at p command.header.channel_id in
    let current = c.incoming_reliable_sequence_number in
    let w = window_of current command.header.reliable_sequence_number in
    ltb command.header.channel_id p.channel_count
    && (leb (current / 4096 + 8 - 1) w && leb w (current / 4096 + 8))

acknowledge_allocated : Session → Protocol → ℕ → Option ℕ × Memory → Bool × Session
acknowledge_allocated s command sent_time (none, m) = (false, with_memory s m)
acknowledge_allocated s command sent_time (some a, m) = (
  true,
  with_peer (with_memory s m) (record (s.peer) {
    outgoing_data_total = u32 (s.peer.outgoing_data_total + 8);
    acknowledgements =
        s.peer.acknowledgements ++ record { sent_time = sent_time; command = command } ∷ [];
  }),
)

-- enet_peer_queue_acknowledgement: false for NULL.
unfoldable pub queue_acknowledgement : Session → Protocol → ℕ → Bool × Session
unfolding outside_window acknowledge_allocated
queue_acknowledgement s command sent_time =
    if outside_window s.peer command
    then (false, s)
    else acknowledge_allocated s command sent_time (malloc (memory s))

-- enet_peer_ping.
unfoldable pub ping : Session → Session
ping s =
    if not (is_state s.peer.state connected)
    then s
    else (queue_outgoing_command s (protocol (Command.ping + flag_acknowledge) 0xFF Body.ping) none
        0 0).1

-- enet_peer_throttle_configure.
unfoldable pub throttle_configure : Session → ℕ → ℕ → ℕ → Session
throttle_configure s interval acceleration deceleration =
    let p = record (s.peer) {
      packet_throttle_interval = interval;
      packet_throttle_acceleration = acceleration;
      packet_throttle_deceleration = deceleration;
    } in
    let body = Body.throttle_configure (record {
      packet_throttle_interval = interval;
      packet_throttle_acceleration = acceleration;
      packet_throttle_deceleration = deceleration;
    }) in
    (queue_outgoing_command (with_peer s p)
      (protocol (Command.throttle_configure + flag_acknowledge) 0xFF body) none 0 0).1

-- enet_peer_has_outgoing_commands.
unfoldable pub has_outgoing_commands : Peer → Bool
has_outgoing_commands p = not (
    is_empty p.outgoing_commands
    && (is_empty p.outgoing_send_reliable_commands && is_empty p.sent_reliable_commands))
