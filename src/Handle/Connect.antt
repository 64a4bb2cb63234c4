-- ===== src/Handle/Connect.antt =====
-- A request to connect arrives: enet_protocol_handle_connect of src/protocol.c. It looks for a peer
-- that is free, counts the peers of the same address, and answers with the parameters of the
-- connection.
pub mod Duplicates
use enet_revamp.Base.{
  ℕ, ◌+◌, ◌%◌, not, ◌&&◌, ◌||◌, ◌==◌, ltb, leb, if◌then◌else◌, Option, none, some, List, [], ◌∷◌,
  replicate,
}
use enet_revamp.Protocol.{
  Connect, Protocol, Body, protocol, flag_acknowledge, maximum_window_size, minimum_channel_count,
  maximum_channel_count,
}
use enet_revamp.Protocol.Command
use enet_revamp.State.{Memory, Address, Peer, Host, Session, PeerState, is_state, new_channel}
use enet_revamp.Packet.{malloc}
use enet_revamp.Session.{settle}
use enet_revamp.Peer.Outgoing.{queue_outgoing_command}
use enet_revamp.Handle.Control.{scaled_window, clamp_window, window_for}
use enet_revamp.Handle.Verify.{clamp_mtu, lower}

-- The loop over the peers: the first free one and the number of connections from the address, or
-- none where this connection exists already.
unfoldable pub scan : List Peer → Address → ℕ → Option Peer → ℕ → Option (Option Peer × ℕ)
scan [] from id free duplicates = some (free, duplicates)
scan (p ∷ rest) from id free duplicates =
    let taken : Option Peer = elim free [ none ↦ some p | some q ↦ some q ] in
    let next = scan rest from id (if is_state p.state PeerState.disconnected then taken else free) (
      if is_state p.state PeerState.disconnected
      then duplicates
      else if not (is_state p.state PeerState.connecting) && p.address.host == from.host
      then duplicates + 1
      else duplicates) in
    if not (is_state p.state PeerState.disconnected)
      && (not (is_state p.state PeerState.connecting)
          && (p.address.host == from.host && (p.address.port == from.port && p.connect_id == id)))
    then none
    else next

-- The session number of a new connection: one more than the requested or the last one, modulo 4,
-- and once more if that is the last one.
unfoldable pub next_session : ℕ → ℕ → ℕ
next_session requested last =
    let n = ((if requested == 0xFF then last else requested) + 1) % 4 in
    if n == last then (n + 1) % 4 else n

-- The window size that the answer offers.
unfoldable pub offered_window : ℕ → ℕ → ℕ
offered_window bandwidth requested =
    let w = if bandwidth == 0 then maximum_window_size else scaled_window bandwidth in
    clamp_window (if ltb requested w then requested else w)

abbrev pub connecting_peer : Host → Connect → ℕ → Peer → Peer
connecting_peer h c channel_count p = record p {
  channels = replicate channel_count new_channel;
  channel_count = channel_count;
  state = PeerState.acknowledging_connect;
  connect_id = c.connect_id;
  address = h.received_address;
  mtu = lower (clamp_mtu c.mtu) h.mtu;
  outgoing_peer_id = c.outgoing_peer_id;
  incoming_bandwidth = c.incoming_bandwidth;
  outgoing_bandwidth = c.outgoing_bandwidth;
  packet_throttle_interval = c.packet_throttle_interval;
  packet_throttle_acceleration = c.packet_throttle_acceleration;
  packet_throttle_deceleration = c.packet_throttle_deceleration;
  event_data = c.user_data;
  outgoing_session_id = next_session c.incoming_session_id p.outgoing_session_id;
  incoming_session_id = next_session c.outgoing_session_id p.incoming_session_id;
  window_size = window_for c.incoming_bandwidth h.outgoing_bandwidth;
}

abbrev pub verification : Host → Connect → Peer → Protocol
verification h c p = protocol (Command.verify_connect + flag_acknowledge) 0xFF (
    Body.verify_connect (record {
      outgoing_peer_id = p.incoming_peer_id;
      incoming_session_id = p.outgoing_session_id;
      outgoing_session_id = p.incoming_session_id;
      mtu = p.mtu;
      window_size = offered_window h.incoming_bandwidth c.window_size;
      channel_count = p.channel_count;
      incoming_bandwidth = h.incoming_bandwidth;
      outgoing_bandwidth = h.outgoing_bandwidth;
      packet_throttle_interval = p.packet_throttle_interval;
      packet_throttle_acceleration = p.packet_throttle_acceleration;
      packet_throttle_deceleration = p.packet_throttle_deceleration;
      connect_id = p.connect_id;
    }))

-- The peer that answers, with its host; none for NULL, with what became of the host.
unfoldable pub connect_allocated :
    Host → Connect → ℕ → Peer → Option ℕ × Memory → Option Session × Host
connect_allocated h c channel_count p (none, m) = (none, record h { memory = m })
connect_allocated h c channel_count p (some a, m) =
    let q = connecting_peer h c channel_count p in
    let s =
      (queue_outgoing_command (record { host = record h { memory = m }; peer = q })
        (verification h c q) none 0 0).1 in
    (some s, settle s)

unfoldable pub connect_found : Host → Connect → Option (Option Peer × ℕ) → Option Session × Host
unfolding connect_allocated
connect_found h c none = (none, h)
connect_found h c (some (none, duplicates)) = (none, h)
connect_found h c (some (some p, duplicates)) =
    if leb h.duplicate_peers duplicates
    then (none, h)
    else connect_allocated h c
        (if ltb h.channel_limit c.channel_count then h.channel_limit else c.channel_count) p
        (malloc h.memory)

-- enet_protocol_handle_connect: the session of the peer that it returns, none for NULL, and the
-- host, in whose array that peer is written back.
unfoldable pub handle_connect : Host → Connect → Option Session × Host
unfolding connect_found scan
handle_connect h c =
    if ltb c.channel_count minimum_channel_count || ltb maximum_channel_count c.channel_count
    then (none, h)
    else connect_found h c (scan h.peers h.received_address c.connect_id none 0)
