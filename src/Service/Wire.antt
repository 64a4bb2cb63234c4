-- ===== src/Service/Wire.antt =====
-- A datagram as it goes to the socket, and the packet loss that is noted then: the middle of
-- enet_protocol_send_outgoing_commands of src/protocol.c. A datagram goes out as a `Wire`: its parts
-- and what the header says, before they are encoded as bytes.
use Prim.Native.Nat.{bit_or}
use enet_revamp.Base.{
  ℕ, ◌+◌, ◌*◌, ◌/◌, Bool, ◌&&◌, ◌==◌, leb, ltb, if◌then◌else◌, Option, none, some, List, is_some,
  u16, u32, sub64, enet_difference,
}
use enet_revamp.Time.{time_difference}
use enet_revamp.Protocol.{maximum_peer_id}
use enet_revamp.State.{Address, Peer, Host, Session}
use enet_revamp.Sending.Datagram.{Part, Datagram}

-- `peer_id` is the first field of ENetProtocolHeader with its flags; `sent_time` is the second, if it
-- is sent. `compressed` is the size of the compressed commands, `checksum_seed` what stands in the
-- place of the checksum while it is computed.
pub record Wire : Type 0 where
  pub address : Address
  pub peer_id : ℕ
  pub sent_time : Option ℕ
  pub parts : List Part
  pub compressed : Option ℕ
  pub checksum_seed : Option ℕ

-- What is outside of the library. `socket` answers the datagram that follows those already sent,
-- none for a negative result.
pub record Outside : Type 0 where
  pub flush : Host → Host
  pub compress : Option (Datagram → ℕ)
  pub socket : List Wire → Wire → Option ℕ

-- ENET_PROTOCOL_HEADER_FLAG_COMPRESSED, ENET_PROTOCOL_HEADER_FLAG_SENT_TIME and
-- ENET_PROTOCOL_HEADER_SESSION_SHIFT, as factors.
abbrev pub header_flag_compressed : ℕ
header_flag_compressed = 16384

abbrev pub header_flag_sent_time : ℕ
header_flag_sent_time = 32768

abbrev pub header_session : ℕ
header_session = 4096

-- ENET_PEER_PACKET_LOSS_INTERVAL and ENET_PEER_PACKET_LOSS_SCALE.
abbrev pub packet_loss_interval : ℕ
packet_loss_interval = 10000

abbrev pub packet_loss_scale : ℕ
packet_loss_scale = 65536

-- The packet loss of the last interval, smoothed.
unfoldable pub note_loss : ℕ → Peer → Peer
note_loss now p =
    let loss = u32 (p.packets_lost * packet_loss_scale) / p.packets_sent in
    record p {
      packet_loss_variance =
          u32 (p.packet_loss_variance * 3 + enet_difference loss p.packet_loss) / 4;
      packet_loss = u32 (p.packet_loss * 7 + loss) / 8;
      packet_loss_epoch = now;
      packets_sent = 0;
      packets_lost = 0;
    }

unfoldable pub measure_loss : ℕ → Peer → Peer
unfolding note_loss time_difference
measure_loss now p =
    if p.packet_loss_epoch == 0
    then record p { packet_loss_epoch = now }
    else if leb packet_loss_interval (time_difference now p.packet_loss_epoch)
        && ltb 0 p.packets_sent
    then note_loss now p
    else p

-- The size of the compressed commands, when it is smaller.
unfoldable pub compressed_size : Option (Datagram → ℕ) → Datagram → Option ℕ
compressed_size none d = none
compressed_size (some compress) d =
    let size = compress d in
    if ltb 0 size && ltb size (sub64 d.packet_size 4) then some size else none

-- `currentPeer->outgoingPeerID < ENET_PROTOCOL_MAXIMUM_PEER_ID`: the other side has named its peer.
abbrev pub is_named : Peer → Bool
is_named p = ltb p.outgoing_peer_id maximum_peer_id

unfoldable pub header_flags : Peer → Datagram → Option ℕ → ℕ
header_flags p d compressed =
    let time = if d.carries_sent_time then header_flag_sent_time else 0 in
    let both = if is_some compressed then bit_or time header_flag_compressed else time in
    if is_named p then bit_or both (u16 (p.outgoing_session_id * header_session)) else both

unfoldable pub wire_of : Outside → Session → Datagram → Wire
unfolding compressed_size header_flags
wire_of o s d =
    let compressed = compressed_size o.compress d in
    record {
      address = s.peer.address;
      peer_id = u16 (bit_or s.peer.outgoing_peer_id (header_flags s.peer d compressed));
      sent_time = if d.carries_sent_time then some (u16 s.host.service_time) else none;
      parts = d.parts;
      compressed = compressed;
      checksum_seed =
          if is_some s.host.checksum
          then some (if is_named s.peer then s.peer.connect_id else 0)
          else none;
    }
