-- ===== src/Handle/Fragment.antt =====
-- Fragments of a packet: enet_protocol_handle_send_fragment and
-- enet_protocol_handle_send_unreliable_fragment of src/protocol.c. The first fragment to arrive
-- queues a command with an empty packet of the full length; every fragment is copied to its place
-- in that packet and ticked off in the command's bitmap.
pub mod Bitmap
pub mod Pieces
pub mod Delivery
pub mod Reassembly
use mathlib.Core.List.{reverse}
use enet_revamp.Base.{
  ℕ, ◌+◌, ◌-◌, ◌/◌, Bool, true, false, not, ◌&&◌, ◌||◌, ◌==◌, leb, ltb, if◌then◌else◌, Option, none,
  some, List, [], ◌∷◌, u32, sub32,
}
use enet_revamp.Protocol.{Protocol, Body, SendFragment, kind, maximum_fragment_count}
use enet_revamp.Protocol.Command
use enet_revamp.State.{Packet, Memory, IncomingCommand, Channel, Peer, Host, Session, update}
use enet_revamp.Packet.{put}
use enet_revamp.Session.{with_peer, with_memory, memory, channel_at, with_channel}
use enet_revamp.Peer.Dispatch.{in_window, dispatch_reliable, dispatch_unreliable}
use enet_revamp.Peer.Incoming.{Queued, failed, dummy, fresh, skips, stops, queue_incoming_command}
use enet_revamp.Handle.Send.{
  Received, is_open, has_arrived, packet_flag_reliable, packet_flag_unreliable_fragment,
}

unfoldable pub length_at : Option ℕ → Memory → ℕ
length_at none m = 0
length_at (some a) m = elim (m.packets a) [ none ↦ 0 | some p ↦ p.data_length ]

-- What the search for the command of the packet finds: nothing, a command that a fragment of this
-- packet cannot belong to, or the command.
pub data Search : Type 0 where
  absent mismatch : Search
  found : ℕ → Search

-- A queued command with the right sequence numbers, looked at more closely.
unfoldable pub compare_start : ℕ → SendFragment → Memory → IncomingCommand → Search
unfolding length_at
compare_start number b m c =
    if kind c.command.header.command == number
      && (length_at c.packet m == b.total_length && c.fragment_count == b.fragment_count)
    then found c.address
    else mismatch

-- The search among the reliable commands, from the back.
unfoldable pub search_reliable : ℕ → SendFragment → Memory → List IncomingCommand → Search
unfolding compare_start
search_reliable current b m [] = absent
search_reliable current b m (c ∷ before) =
    let further = search_reliable current b m before in
    if skips current b.start_sequence_number c
    then further
    else if stops current b.start_sequence_number c
    then absent
    else if ltb c.reliable_sequence_number b.start_sequence_number
    then absent
    else if c.reliable_sequence_number == b.start_sequence_number
    then compare_start Command.send_fragment b m c
    else further

-- The search among the unreliable commands, for the reliable number of the fragment's header.
unfoldable pub search_unreliable : ℕ → ℕ → SendFragment → Memory → List IncomingCommand → Search
unfolding compare_start
search_unreliable current number b m [] = absent
search_unreliable current number b m (c ∷ before) =
    let further = search_unreliable current number b m before in
    if skips current number c
    then further
    else if stops current number c
    then absent
    else if ltb c.reliable_sequence_number number
    then absent
    else if ltb number c.reliable_sequence_number
    then further
    else if ltb c.unreliable_sequence_number b.start_sequence_number
    then absent
    else if c.unreliable_sequence_number == b.start_sequence_number
    then compare_start Command.send_unreliable_fragment b m c
    else further

-- The bitmap of a command; only a command without fragments has none.
abbrev pub bitmap : IncomingCommand → ℕ → Bool
bitmap c i = elim c.fragments [ none ↦ false | some bits ↦ bits i ]

-- `--fragmentsRemaining` and the bit of the fragment.
unfoldable pub tick_off : ℕ → IncomingCommand → IncomingCommand
tick_off number c = record c {
  fragments_remaining = sub32 c.fragments_remaining 1;
  fragments = some (update (bitmap c) number true);
}

-- The bytes after `memcpy (contents + offset, bytes, len)`; NULL stays NULL.
unfoldable pub overwrite : ℕ → ℕ → (ℕ → Option ℕ) → (ℕ → Option ℕ) → ℕ → Option ℕ
overwrite offset len bytes contents i =
    if leb offset i && ltb i (offset + len) then bytes (i - offset) else contents i

unfoldable pub copy_into : Option ℕ → ℕ → ℕ → (ℕ → Option ℕ) → Memory → Memory
unfolding overwrite
copy_into none offset len bytes m = m
copy_into (some a) offset len bytes m = elim (m.packets a) [
  | none ↦ m
  | some p ↦ elim p.contents [
    | none ↦ m
    | some contents ↦ put m a (record p { contents = some (overwrite offset len bytes contents) })
  ]
]

-- A queue by the addresses of its commands.
unfoldable pub command_at : ℕ → List IncomingCommand → Option IncomingCommand
command_at a [] = none
command_at a (c ∷ rest) =
    let further = command_at a rest in if c.address == a then some c else further

unfoldable pub replace_at : ℕ → IncomingCommand → List IncomingCommand → List IncomingCommand
replace_at a new [] = []
replace_at a new (c ∷ rest) =
    let further = replace_at a new rest in if c.address == a then new ∷ rest else c ∷ further

-- The length that is copied: no more than is left of the packet.
unfoldable pub copied_length : SendFragment → ℕ → ℕ
copied_length b total =
    if ltb total (u32 (b.fragment_offset + b.data_length))
    then total - b.fragment_offset
    else b.data_length

-- What both handlers do at the end with the command of the packet, unless its bitmap has the fragment
-- already: it is ticked off and its bytes are copied.
unfoldable pub take_fragment :
    SendFragment → Received → IncomingCommand → Memory → Option (IncomingCommand × Memory)
unfolding length_at copied_length tick_off copy_into
take_fragment b r c m =
    if bitmap c b.fragment_number
    then none
    else some (
      tick_off b.fragment_number c,
      copy_into c.packet b.fragment_offset (copied_length b (length_at c.packet m)) r.bytes m,
    )

-- The last part of enet_protocol_handle_send_fragment, for the command at an address.
unfoldable pub accept_reliable : Session → ℕ → SendFragment → Received → ℕ → Session
unfolding take_fragment command_at replace_at
accept_reliable s k b r a =
    let ch = channel_at s.peer k in
    elim (command_at a ch.incoming_reliable_commands) [
      | none ↦ s
      | some c ↦ elim (take_fragment b r c (memory s)) [
        | none ↦ s
        | some (d, m) ↦
            let t = with_peer (with_memory s m) (
              with_channel s.peer k (record ch {
                incoming_reliable_commands = replace_at a d ch.incoming_reliable_commands;
              })) in
            if d.fragments_remaining == 0 then dispatch_reliable t k none else t
      ]
    ]

unfoldable pub accept_unreliable : Session → ℕ → SendFragment → Received → ℕ → Session
unfolding take_fragment command_at replace_at
accept_unreliable s k b r a =
    let ch = channel_at s.peer k in
    elim (command_at a ch.incoming_unreliable_commands) [
      | none ↦ s
      | some c ↦ elim (take_fragment b r c (memory s)) [
        | none ↦ s
        | some (d, m) ↦
            let t = with_peer (with_memory s m) (
              with_channel s.peer k (record ch {
                incoming_unreliable_commands = replace_at a d ch.incoming_unreliable_commands;
              })) in
            if d.fragments_remaining == 0 then dispatch_unreliable t k none else t
      ]
    ]

-- A command that was queued for the fragment. A command with fragments is never the dummy one.
unfoldable pub accept_queued : (Session → ℕ → Session) → Queued × Session → Bool × Session
accept_queued accept (failed, s) = (false, s)
accept_queued accept (dummy, s) = (false, s)
accept_queued accept (fresh a, s) = (true, accept s a)

unfoldable pub accept_found :
    (Session → ℕ → Session) → Session → Queued × Session → Search → Bool × Session
unfolding accept_queued
accept_found accept s queued absent = accept_queued accept queued
accept_found accept s queued mismatch = (false, s)
accept_found accept s queued (found a) = (true, accept s a)

-- The guard on the numbers of a fragment.
unfoldable pub is_sound : Host → SendFragment → Bool
is_sound h b = not (
    ltb maximum_fragment_count b.fragment_count
    || (leb b.fragment_count b.fragment_number
        || (ltb h.maximum_packet_size b.total_length
            || (leb b.total_length b.fragment_offset
                || ltb (b.total_length - b.fragment_offset) b.data_length))))

-- The command that stands for the whole packet.
abbrev pub start_of : Protocol → SendFragment → Protocol
start_of command b = record command {
  header = record (command.header) { reliable_sequence_number = b.start_sequence_number };
}

-- enet_protocol_handle_send_fragment, for a command with its body.
unfoldable pub handle_send_fragment : Session → Protocol → SendFragment → Received → Bool × Session
unfolding is_open has_arrived is_sound search_reliable accept_found accept_reliable
handle_send_fragment s command b r =
    let k = command.header.channel_id in
    let ch = channel_at s.peer k in
    let current = ch.incoming_reliable_sequence_number in
    let queued =
      queue_incoming_command s (start_of command b) none b.total_length packet_flag_reliable
        b.fragment_count in
    if not (is_open s.peer command)
    then (false, s)
    else if b.data_length == 0 || not (has_arrived s.host b.data_length r)
    then (false, s)
    else if not (in_window current b.start_sequence_number)
    then (true, s)
    else if not (is_sound s.host b) || ltb b.total_length b.fragment_count
    then (false, s)
    else accept_found (λ t a. accept_reliable t k b r a) s queued
        (search_reliable current b (memory s) (reverse ch.incoming_reliable_commands))

-- enet_protocol_handle_send_unreliable_fragment, for a command with its body.
unfoldable pub handle_send_unreliable_fragment :
    Session → Protocol → SendFragment → Received → Bool × Session
unfolding is_open has_arrived is_sound search_unreliable accept_found accept_unreliable
handle_send_unreliable_fragment s command b r =
    let k = command.header.channel_id in
    let ch = channel_at s.peer k in
    let current = ch.incoming_reliable_sequence_number in
    let number = command.header.reliable_sequence_number in
    let queued =
      queue_incoming_command s command none b.total_length packet_flag_unreliable_fragment
        b.fragment_count in
    if not (is_open s.peer command)
    then (false, s)
    else if not (has_arrived s.host b.data_length r)
    then (false, s)
    else if not (in_window current number)
    then (true, s)
    else if number == current && leb b.start_sequence_number ch.incoming_unreliable_sequence_number
    then (true, s)
    else if not (is_sound s.host b)
    then (false, s)
    else accept_found (λ t a. accept_unreliable t k b r a) s queued
        (search_unreliable current number b (memory s) (reverse ch.incoming_unreliable_commands))
