-- ===== src/Packet.antt =====
-- Packets and the allocator: src/packet.c and enet_malloc of src/callbacks.c, as functions on
-- `Memory`. A call on an address that holds no packet, which C leaves undefined, changes nothing.
pub mod Contents
pub mod References
pub mod Checksum
use enet_revamp.Base.{
  ℕ, ◌+◌, ◌-◌, Bool, true, false, ◌||◌, leb, ltb, ◌==◌, if◌then◌else◌, Option, none, some, List, [],
  ◌∷◌, bit, set_bit, sub64, u64,
}
use enet_revamp.State.{Packet, Memory, flag_no_allocate, flag_sent, update}

-- enet_malloc: a failed request calls no_memory; if that returns, so does NULL.
unfoldable pub malloc : Memory → Option ℕ × Memory
malloc m =
    if m.grants m.requests
    then (some m.requests, record m { requests = m.requests + 1 })
    else (none, record m { requests = m.requests + 1; no_memory = m.no_memory + 1 })

-- The bytes that `memcpy (buffer, data, length)` leaves in a new buffer; NULL copies nothing.
unfoldable pub copied : ℕ → Option (ℕ → Option ℕ) → ℕ → Option ℕ
copied length none i = none
copied length (some bytes) i = if ltb i length then bytes i else none

abbrev pub put : Memory → ℕ → Packet → Memory
put m a packet = record m { packets = update m.packets a (some packet) }

abbrev pub new_packet : ℕ → Option (ℕ → Option ℕ) → ℕ → Packet
new_packet flags contents length = record {
  reference_count = 0;
  flags = flags;
  contents = contents;
  data_length = length;
  free_callback = none;
}

fill_buffer : ℕ → Option (ℕ → Option ℕ) → ℕ → ℕ → Option ℕ × Memory → Option ℕ × Memory
fill_buffer a source length flags (none, m) = (none, m)
fill_buffer a source length flags (some b, m) =
    (some a, put m a (new_packet flags (some (copied length source)) length))

fill_packet : Option (ℕ → Option ℕ) → ℕ → ℕ → Option ℕ × Memory → Option ℕ × Memory
unfolding fill_buffer malloc bit copied
fill_packet source length flags (none, m) = (none, m)
fill_packet source length flags (some a, m) =
    if bit flag_no_allocate flags
    then (some a, put m a (new_packet flags source length))
    else if length == 0
    then (some a, put m a (new_packet flags none length))
    else fill_buffer a source length flags (malloc m)

-- enet_packet_create: the address of the new packet, or none for NULL. When the second request
-- fails the block of the first goes back.
unfoldable pub create : Memory → Option (ℕ → Option ℕ) → ℕ → ℕ → Option ℕ × Memory
unfolding fill_packet
create m source length flags = fill_packet source length flags (malloc m)

abbrev call_back : Option ℕ → ℕ → ℕ
call_back none n = n
call_back (some f) n = n + 1

-- enet_packet_destroy on a packet: its free callback runs first, if it has one.
unfoldable pub destroy : ℕ → Memory → Memory
destroy a m = elim (m.packets a) [
  | none ↦ m
  | some p ↦ record m {
    packets = update m.packets a none;
    notified = call_back p.free_callback m.notified;
  }
]

resize_buffer : ℕ → Packet → ℕ → Option ℕ × Memory → Bool × Memory
unfolding copied
resize_buffer a p length (none, m) = (false, m)
resize_buffer a p length (some b, m) = (
  true,
  put m a (record p { contents = some (copied p.data_length p.contents); data_length = length }),
)

-- enet_packet_resize: true for 0, false for -1.
unfoldable pub resize : ℕ → ℕ → Memory → Bool × Memory
unfolding resize_buffer malloc bit
resize a length m = elim (m.packets a) [
  | none ↦ (false, m)
  | some p ↦
      if leb length p.data_length || bit flag_no_allocate p.flags
      then (true, put m a (record p { data_length = length }))
      else resize_buffer a p length (malloc m)
]

-- `packet->referenceCount += n`.
unfoldable pub retain : ℕ → ℕ → Memory → Memory
retain n a m = elim (m.packets a) [
  | none ↦ m
  | some p ↦ put m a (record p { reference_count = u64 (p.reference_count + n) })
]

-- `--packet->referenceCount`, and the packet is destroyed if that leaves no reference. The queues
-- of src/peer.c and src/protocol.c give up a command's packet this way.
unfoldable pub release : ℕ → Memory → Memory
unfolding destroy
release a m = elim (m.packets a) [
  | none ↦ m
  | some p ↦
      let m' = put m a (record p { reference_count = sub64 p.reference_count 1 }) in
      if sub64 p.reference_count 1 == 0 then destroy a m' else m'
]

-- As `release`, with ENET_PACKET_FLAG_SENT set before the packet is destroyed.
unfoldable pub release_sent : ℕ → Memory → Memory
unfolding destroy set_bit
release_sent a m = elim (m.packets a) [
  | none ↦ m
  | some p ↦
      let q = record p { reference_count = sub64 p.reference_count 1 } in
      if sub64 p.reference_count 1 == 0
      then destroy a (put m a (record q { flags = set_bit flag_sent q.flags }))
      else put m a q
]

-- `if (command->packet != NULL)` before the reference is given up.
unfoldable pub release_option : Option ℕ → Memory → Memory
unfolding release
release_option none m = m
release_option (some a) m = release a m

unfoldable pub release_all : List (Option ℕ) → Memory → Memory
unfolding release_option
release_all [] m = m
release_all (a ∷ rest) m = release_all rest (release_option a m)
