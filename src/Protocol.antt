-- ===== src/Protocol.antt =====
-- The wire protocol: the constants and command structures of include/enet/protocol.h and the
-- command sizes of src/protocol.c. A command byte, its flags and the header flags are numbers; a
-- flag that is or-ed into a byte that lacks it is added. The union ENetProtocol is a header and a
-- body with one constructor per member. Fields hold host-order values: the conversions
-- ENET_NET_TO_HOST_* are in `Decoding`, which reads commands from bytes; writing them as bytes, with
-- ENET_HOST_TO_NET_*, is not modelled.
pub mod Command
pub mod Decoding
use enet_revamp.Base.{ℕ, ◌+◌, ◌*◌, ◌/◌, ◌%◌, Bool, ◌==◌, List, [], ◌∷◌, get_or}

abbrev pub minimum_mtu : ℕ
minimum_mtu = 576

abbrev pub maximum_mtu : ℕ
maximum_mtu = 4096

abbrev pub maximum_packet_commands : ℕ
maximum_packet_commands = 32

abbrev pub minimum_window_size : ℕ
minimum_window_size = 4096

abbrev pub maximum_window_size : ℕ
maximum_window_size = 65536

abbrev pub minimum_channel_count : ℕ
minimum_channel_count = 1

abbrev pub maximum_channel_count : ℕ
maximum_channel_count = 255

abbrev pub maximum_peer_id : ℕ
maximum_peer_id = 0xFFF

abbrev pub maximum_fragment_count : ℕ
maximum_fragment_count = 1048576

-- ENET_PROTOCOL_COMMAND_FLAG_ACKNOWLEDGE and ENET_PROTOCOL_COMMAND_FLAG_UNSEQUENCED.
abbrev pub flag_acknowledge : ℕ
flag_acknowledge = 128

abbrev pub flag_unsequenced : ℕ
flag_unsequenced = 64

-- `command & ENET_PROTOCOL_COMMAND_MASK`, and the tests of the two flags of a command byte.
unfoldable pub kind : ℕ → ℕ
kind command = command % 16

unfoldable pub wants_acknowledge : ℕ → Bool
wants_acknowledge command = command / 128 % 2 == 1

unfoldable pub is_unsequenced : ℕ → Bool
is_unsequenced command = command / 64 % 2 == 1

-- ENetProtocolCommandHeader.
pub record CommandHeader : Type 0 where
  pub command : ℕ
  pub channel_id : ℕ
  pub reliable_sequence_number : ℕ

pub record Acknowledge : Type 0 where
  pub received_reliable_sequence_number : ℕ
  pub received_sent_time : ℕ

pub record Connect : Type 0 where
  pub outgoing_peer_id : ℕ
  pub incoming_session_id : ℕ
  pub outgoing_session_id : ℕ
  pub mtu : ℕ
  pub window_size : ℕ
  pub channel_count : ℕ
  pub incoming_bandwidth : ℕ
  pub outgoing_bandwidth : ℕ
  pub packet_throttle_interval : ℕ
  pub packet_throttle_acceleration : ℕ
  pub packet_throttle_deceleration : ℕ
  pub connect_id : ℕ
  pub user_data : ℕ

pub record VerifyConnect : Type 0 where
  pub outgoing_peer_id : ℕ
  pub incoming_session_id : ℕ
  pub outgoing_session_id : ℕ
  pub mtu : ℕ
  pub window_size : ℕ
  pub channel_count : ℕ
  pub incoming_bandwidth : ℕ
  pub outgoing_bandwidth : ℕ
  pub packet_throttle_interval : ℕ
  pub packet_throttle_acceleration : ℕ
  pub packet_throttle_deceleration : ℕ
  pub connect_id : ℕ

pub record BandwidthLimit : Type 0 where
  pub incoming_bandwidth : ℕ
  pub outgoing_bandwidth : ℕ

pub record ThrottleConfigure : Type 0 where
  pub packet_throttle_interval : ℕ
  pub packet_throttle_acceleration : ℕ
  pub packet_throttle_deceleration : ℕ

pub record SendUnreliable : Type 0 where
  pub unreliable_sequence_number : ℕ
  pub data_length : ℕ

pub record SendUnsequenced : Type 0 where
  pub unsequenced_group : ℕ
  pub data_length : ℕ

pub record SendFragment : Type 0 where
  pub start_sequence_number : ℕ
  pub data_length : ℕ
  pub fragment_count : ℕ
  pub fragment_number : ℕ
  pub total_length : ℕ
  pub fragment_offset : ℕ

-- The members of the union ENetProtocol, each less its header. `disconnect` carries its data,
-- `send_reliable` its data length.
pub data Body : Type 0 where
  acknowledge : Acknowledge → Body
  connect : Connect → Body
  verify_connect : VerifyConnect → Body
  disconnect : ℕ → Body
  ping : Body
  send_reliable : ℕ → Body
  send_unreliable : SendUnreliable → Body
  send_unsequenced : SendUnsequenced → Body
  send_fragment : SendFragment → Body
  bandwidth_limit : BandwidthLimit → Body
  throttle_configure : ThrottleConfigure → Body

pub record Protocol : Type 0 where
  pub header : CommandHeader
  pub body : Body

-- A command to send: the functions that build one leave its sequence number to
-- enet_peer_setup_outgoing_command.
abbrev pub protocol : ℕ → ℕ → Body → Protocol
protocol command channel_id body = record {
  header = record { command = command; channel_id = channel_id; reliable_sequence_number = 0 };
  body = body;
}

-- commandSizes: the sizes of the packed structures, by command number.
abbrev pub command_sizes : List ℕ
command_sizes = 0 ∷ 8 ∷ 48 ∷ 44 ∷ 8 ∷ 4 ∷ 6 ∷ 8 ∷ 24 ∷ 8 ∷ 12 ∷ 16 ∷ 24 ∷ []

-- enet_protocol_command_size. The table has no entry for 13, 14 and 15, which no caller passes.
unfoldable pub command_size : ℕ → ℕ
unfolding kind
command_size command = get_or command_sizes (kind command) 0
