-- ===== src/Service/Arrival.antt =====
-- A datagram that arrived, as the first half of enet_protocol_handle_incoming_commands of
-- src/protocol.c looks at it: its header, its sender, its checksum.
use enet_revamp.Base.{
  ℕ, zero, suc, ◌+◌, ◌-◌, ◌/◌, ◌%◌, Bool, true, not, ◌&&◌, ◌||◌, ◌==◌, leb, ltb, if◌then◌else◌,
  Option, none, some, List, [], ◌∷◌, bit,
}
use enet_revamp.Protocol.{maximum_peer_id, maximum_mtu}
use enet_revamp.Protocol.Decoding.{get16, get32_raw}
use enet_revamp.State.{Peer, Host, Session, PeerState, is_state}
use enet_revamp.Session.{focus}

-- `receivedData` and `receivedDataLength`.
pub record Arrival : Type 0 where
  pub bytes : ℕ → ℕ
  pub size : ℕ

-- ENetProtocolHeader: `peerID` taken apart, and its size with the checksum.
pub record Header : Type 0 where
  pub peer_id : ℕ
  pub session_id : ℕ
  pub is_compressed : Bool
  pub has_sent_time : Bool
  pub sent_time : ℕ
  pub size : ℕ

unfoldable pub read_header : Bool → Arrival → Header
unfolding bit
read_header with_checksum a =
    let word = get16 a.bytes 0 in
    record {
      peer_id = word % 4096;
      session_id = word / 4096 % 4;
      is_compressed = bit 14 word;
      has_sent_time = bit 15 word;
      sent_time = get16 a.bytes 2;
      size = (if bit 15 word then 4 else 2) + (if with_checksum then 4 else 0);
    }

-- ENET_HOST_BROADCAST.
abbrev pub broadcast_address : ℕ
broadcast_address = 0xFFFFFFFF

-- The datagram does not come from the peer that it names.
unfoldable pub is_foreign : Host → Header → Peer → Bool
is_foreign h d p =
    is_state p.state PeerState.disconnected
    || (is_state p.state PeerState.zombie
        || (not (
                h.received_address.host == p.address.host
                && h.received_address.port == p.address.port)
              && not (p.address.host == broadcast_address)
            || ltb p.outgoing_peer_id maximum_peer_id
              && not (d.session_id == p.incoming_session_id)))

-- Who sent the datagram: nobody, a new client (NULL), or the peer with an index.
pub data Sender : Type 0 where
  rejected unknown : Sender
  known : Session → Sender

unfoldable pub sender_of : Host → Header → Sender
unfolding is_foreign focus
sender_of h d =
    let found : Sender = elim (focus h d.peer_id) [
      | none ↦ rejected
      | some s ↦ if is_foreign h d s.peer then rejected else known s
    ] in
    if d.peer_id == maximum_peer_id then unknown else found

-- What the decompressor makes of a datagram: the datagram with its size behind the header. The buffer
-- has room for ENET_PROTOCOL_MAXIMUM_MTU bytes.
unfoldable pub inflate : Option (Arrival → ℕ → Arrival) → Header → Arrival → Option Arrival
inflate none d a = none
inflate (some decompress) d a =
    let b = decompress a d.size in
    if leb b.size 0 || ltb (maximum_mtu - d.size) b.size
    then none
    else some (record {
      bytes = λ i. if ltb i d.size then a.bytes i else b.bytes i;
      size = d.size + b.size;
    })

unfoldable pub unpack : Option (Arrival → ℕ → Arrival) → Header → Arrival → Option Arrival
unfolding inflate
unpack decompress d a = if d.is_compressed then inflate decompress d a else some a

-- The datagram as a list, with a number in the place of the checksum.
abbrev pub raw_byte : ℕ → ℕ → ℕ
raw_byte zero n = n % 256
raw_byte (suc k) n = raw_byte k (n / 256)

abbrev pub with_seed : ℕ → ℕ → (ℕ → ℕ) → ℕ → ℕ
with_seed place seed bytes i =
    if leb place i && ltb i (place + 4) then raw_byte (i - place) seed else bytes i

abbrev pub bytes_from : ℕ → ℕ → (ℕ → ℕ) → List ℕ
bytes_from zero i bytes = []
bytes_from (suc n) i bytes = bytes i ∷ bytes_from n (i + 1) bytes

-- The checksum in the datagram is the one of its bytes with `connectID` in that place, 0 for a new
-- client.
unfoldable pub has_checksum : Option (List ℕ → ℕ) → Header → Arrival → ℕ → Bool
has_checksum none d a seed = true
has_checksum (some checksum) d a seed =
    checksum (bytes_from a.size 0 (with_seed (d.size - 4) seed a.bytes))
    == get32_raw a.bytes (d.size - 4)
