-- ===== src/Protocol/Decoding.antt =====
-- Commands as they lie in a datagram: the packed structures of include/enet/protocol.h, read with
-- ENET_NET_TO_HOST_16 and ENET_NET_TO_HOST_32. A datagram is the function that gives the byte at each
-- place; what lies behind its end is whatever the buffer holds.
use enet_revamp.Base.{ℕ, ◌+◌, ◌*◌, ◌==◌, if◌then◌else◌, Option, none, some}
use enet_revamp.Protocol.{CommandHeader, Protocol, Body, Connect, VerifyConnect, SendFragment, kind}
use enet_revamp.Protocol.Command

abbrev pub get16 : (ℕ → ℕ) → ℕ → ℕ
get16 bytes i = bytes i * 256 + bytes (i + 1)

abbrev pub get32 : (ℕ → ℕ) → ℕ → ℕ
get32 bytes i = get16 bytes i * 65536 + get16 bytes (i + 2)

-- A number that the source does not convert, on a machine that stores the lowest byte first.
abbrev pub get32_raw : (ℕ → ℕ) → ℕ → ℕ
get32_raw bytes i =
    bytes i + (bytes (i + 1) * 256 + (bytes (i + 2) * 65536 + bytes (i + 3) * 16777216))

-- ENetProtocolCommandHeader.
abbrev pub decode_header : (ℕ → ℕ) → ℕ → CommandHeader
decode_header bytes i = record {
  command = bytes i;
  channel_id = bytes (i + 1);
  reliable_sequence_number = get16 bytes (i + 2);
}

-- ENetProtocolConnect; its connectID is not converted.
abbrev pub decode_connect : (ℕ → ℕ) → ℕ → Connect
decode_connect bytes i = record {
  outgoing_peer_id = get16 bytes (i + 4);
  incoming_session_id = bytes (i + 6);
  outgoing_session_id = bytes (i + 7);
  mtu = get32 bytes (i + 8);
  window_size = get32 bytes (i + 12);
  channel_count = get32 bytes (i + 16);
  incoming_bandwidth = get32 bytes (i + 20);
  outgoing_bandwidth = get32 bytes (i + 24);
  packet_throttle_interval = get32 bytes (i + 28);
  packet_throttle_acceleration = get32 bytes (i + 32);
  packet_throttle_deceleration = get32 bytes (i + 36);
  connect_id = get32_raw bytes (i + 40);
  user_data = get32 bytes (i + 44);
}

-- ENetProtocolVerifyConnect.
abbrev pub decode_verify_connect : (ℕ → ℕ) → ℕ → VerifyConnect
decode_verify_connect bytes i = record {
  outgoing_peer_id = get16 bytes (i + 4);
  incoming_session_id = bytes (i + 6);
  outgoing_session_id = bytes (i + 7);
  mtu = get32 bytes (i + 8);
  window_size = get32 bytes (i + 12);
  channel_count = get32 bytes (i + 16);
  incoming_bandwidth = get32 bytes (i + 20);
  outgoing_bandwidth = get32 bytes (i + 24);
  packet_throttle_interval = get32 bytes (i + 28);
  packet_throttle_acceleration = get32 bytes (i + 32);
  packet_throttle_deceleration = get32 bytes (i + 36);
  connect_id = get32_raw bytes (i + 40);
}

-- ENetProtocolSendFragment.
abbrev pub decode_fragment : (ℕ → ℕ) → ℕ → SendFragment
decode_fragment bytes i = record {
  start_sequence_number = get16 bytes (i + 4);
  data_length = get16 bytes (i + 6);
  fragment_count = get32 bytes (i + 8);
  fragment_number = get32 bytes (i + 12);
  total_length = get32 bytes (i + 16);
  fragment_offset = get32 bytes (i + 20);
}

-- The member of the union ENetProtocol that a command number stands for.
unfoldable pub decode_body : ℕ → (ℕ → ℕ) → ℕ → Option Body
decode_body n bytes i =
    if n == Command.acknowledge
    then some (
        Body.acknowledge (record {
          received_reliable_sequence_number = get16 bytes (i + 4);
          received_sent_time = get16 bytes (i + 6);
        }))
    else if n == Command.connect
    then some (Body.connect (decode_connect bytes i))
    else if n == Command.verify_connect
    then some (Body.verify_connect (decode_verify_connect bytes i))
    else if n == Command.disconnect
    then some (Body.disconnect (get32 bytes (i + 4)))
    else if n == Command.ping
    then some Body.ping
    else if n == Command.send_reliable
    then some (Body.send_reliable (get16 bytes (i + 4)))
    else if n == Command.send_unreliable
    then some (
        Body.send_unreliable (record {
          unreliable_sequence_number = get16 bytes (i + 4);
          data_length = get16 bytes (i + 6);
        }))
    else if n == Command.send_fragment
    then some (Body.send_fragment (decode_fragment bytes i))
    else if n == Command.send_unsequenced
    then some (
        Body.send_unsequenced
          (record { unsequenced_group = get16 bytes (i + 4); data_length = get16 bytes (i + 6) }))
    else if n == Command.bandwidth_limit
    then some (
        Body.bandwidth_limit (record {
          incoming_bandwidth = get32 bytes (i + 4);
          outgoing_bandwidth = get32 bytes (i + 8);
        }))
    else if n == Command.throttle_configure
    then some (
        Body.throttle_configure (record {
          packet_throttle_interval = get32 bytes (i + 4);
          packet_throttle_acceleration = get32 bytes (i + 8);
          packet_throttle_deceleration = get32 bytes (i + 12);
        }))
    else if n == Command.send_unreliable_fragment
    then some (Body.send_fragment (decode_fragment bytes i))
    else none

-- `command`, with its header in host order.
unfoldable pub decode : (ℕ → ℕ) → ℕ → Option Protocol
unfolding kind decode_body
decode bytes i = elim (decode_body (kind (bytes i)) bytes i) [
  | none ↦ none
  | some body ↦ some (record { header = decode_header bytes i; body = body })
]
