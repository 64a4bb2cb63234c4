-- ===== src/State/Queued.antt =====
-- Packets, the memory that holds them, and the queued commands of include/enet/enet.h. A command
-- stands in one queue at a time and is kept by value in the list that models the queue; a packet
-- is shared by commands and by the application, so it lives in memory under an address.
use enet_revamp.Base.{ℕ, Bool, ◌==◌, if◌then◌else◌, Option}
use enet_revamp.Protocol.{Protocol}

-- ENetPacket. `contents` is `data`: none is NULL, and a byte that malloc left unset is none.
-- `free_callback` names the function that the application set, if any; `userData` is never read.
pub record Packet : Type 0 where
  pub reference_count : ℕ
  pub flags : ℕ
  pub contents : Option (ℕ → Option ℕ)
  pub data_length : ℕ
  pub free_callback : Option ℕ

-- ENetPacketFlag, by bit number.
abbrev pub flag_reliable : ℕ
flag_reliable = 0

abbrev pub flag_unsequenced_packet : ℕ
flag_unsequenced_packet = 1

abbrev pub flag_no_allocate : ℕ
flag_no_allocate = 2

abbrev pub flag_unreliable_fragment : ℕ
flag_unreliable_fragment = 3

abbrev pub flag_sent : ℕ
flag_sent = 8

-- The memory that the allocator of src/callbacks.c hands out. `grants n` is the answer of the
-- application's malloc to the n-th request, and the address of a block is the number of its request.
-- `no_memory` counts the calls of the callback of that name, `notified` those of free callbacks.
pub record Memory : Type 0 where
  pub packets : ℕ → Option Packet
  pub requests : ℕ
  pub grants : ℕ → Bool
  pub no_memory : ℕ
  pub notified : ℕ

abbrev pub update {ℓ} : {A : Type ℓ} → (ℕ → A) → ℕ → A → ℕ → A
update f k v i = if i == k then v else f i

-- ENetAcknowledgement.
pub record Acknowledgement : Type 0 where
  pub sent_time : ℕ
  pub command : Protocol

-- ENetOutgoingCommand. `packet` is the address of the packet, none for NULL.
pub record OutgoingCommand : Type 0 where
  pub reliable_sequence_number : ℕ
  pub unreliable_sequence_number : ℕ
  pub sent_time : ℕ
  pub round_trip_timeout : ℕ
  pub queue_time : ℕ
  pub fragment_offset : ℕ
  pub fragment_length : ℕ
  pub send_attempts : ℕ
  pub command : Protocol
  pub packet : Option ℕ

-- ENetIncomingCommand. `address` stands for the command's pointer, by which the source tells two
-- commands apart. `fragments` is the bitmap: bit i % 32 of word i / 32 is `fragments i`.
pub record IncomingCommand : Type 0 where
  pub address : ℕ
  pub reliable_sequence_number : ℕ
  pub unreliable_sequence_number : ℕ
  pub command : Protocol
  pub fragment_count : ℕ
  pub fragments_remaining : ℕ
  pub fragments : Option (ℕ → Bool)
  pub packet : Option ℕ
