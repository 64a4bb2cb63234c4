-- ===== src/Sending/Datagram.antt =====
-- The datagram that a host is filling for one peer: the fields packetSize, headerFlags, commands,
-- commandCount, buffers and bufferCount of ENetHost (include/enet/enet.h).
use enet_revamp.Base.{ℕ, ◌+◌, Bool, false, leb, Option, List, [], ◌∷◌, ◌++◌, length}
use enet_revamp.Protocol.{Protocol, maximum_packet_commands}

-- A command as it goes out, with the packet, the offset and the length of the data behind it.
pub record Part : Type 0 where
  pub command : Protocol
  pub contents : Option (ℕ × ℕ × ℕ)

-- `commandCount` is the number of parts. `carries_sent_time` is the header flag of that name, the
-- only one that these functions set.
pub record Datagram : Type 0 where
  pub parts : List Part
  pub buffer_count : ℕ
  pub packet_size : ℕ
  pub carries_sent_time : Bool

-- ENET_BUFFER_MAXIMUM.
abbrev pub buffer_maximum : ℕ
buffer_maximum = 65

-- As enet_protocol_send_outgoing_commands starts it: the first buffer is the header's, of 4 bytes.
abbrev pub new_datagram : Datagram
new_datagram = record { parts = []; buffer_count = 1; packet_size = 4; carries_sent_time = false }

abbrev pub add_part : Part → ℕ → ℕ → Datagram → Datagram
add_part part buffers size d = record d {
  parts = d.parts ++ part ∷ [];
  buffer_count = d.buffer_count + buffers;
  packet_size = d.packet_size + size;
}

-- `command >= &host->commands[...]`.
abbrev pub has_no_command : Datagram → Bool
has_no_command d = leb maximum_packet_commands (length d.parts)
