-- ===== src/Host.antt =====
-- Operations of the application on a host: enet_host_random, enet_host_connect,
-- enet_host_broadcast, enet_host_channel_limit and enet_host_bandwidth_limit of src/host.c.
use Prim.Native.Nat.{bit_xor, bit_or}
use enet_revamp.Base.{
  ℕ, zero, suc, ◌+◌, ◌*◌, ◌/◌, true, ◌||◌, ◌==◌, ltb, if◌then◌else◌, Option, none, some, List, [],
  ◌∷◌, replicate, length, u32,
}
use enet_revamp.Protocol.{
  Protocol, Body, protocol, flag_acknowledge, maximum_window_size, minimum_channel_count,
  maximum_channel_count,
}
use enet_revamp.Protocol.Command
use enet_revamp.State.{Memory, Address, Peer, Host, Session, PeerState, is_state, new_channel}
use enet_revamp.Packet.{malloc, destroy}
use enet_revamp.Session.{focus, settle}
use enet_revamp.Peer.Outgoing.{queue_outgoing_command}
use enet_revamp.Peer.Send.{send}
use enet_revamp.Handle.Control.{scaled_window, clamp_window}

unfoldable pub mix_low : ℕ → ℕ
mix_low n = u32 (bit_xor n (n / 32768) * bit_or n 1)

unfoldable pub mix_high : ℕ → ℕ
mix_high n = bit_xor n (u32 (n + u32 (bit_xor n (n / 128) * bit_or n 61)))

-- enet_host_random: the number and the host with its new seed.
unfoldable pub random : Host → ℕ × Host
unfolding mix_low mix_high
random h =
    let seed = u32 (h.random_seed + 0x6D2B79F5) in
    let n = mix_high (mix_low seed) in (bit_xor n (n / 16384), record h { random_seed = seed })

-- The clamp of a number of channels in enet_host_connect.
abbrev pub clamp_channels : ℕ → ℕ
clamp_channels n =
    if ltb n minimum_channel_count
    then minimum_channel_count
    else if ltb maximum_channel_count n
    then maximum_channel_count
    else n

-- The loop of enet_host_connect: the first free peer.
unfoldable pub find_free : List Peer → Option Peer
find_free [] = none
find_free (p ∷ rest) =
    let next = find_free rest in if is_state p.state PeerState.disconnected then some p else next

abbrev pub calling_peer : Host → Address → ℕ → ℕ → Peer → Peer
calling_peer h address channel_count id p = record p {
  channels = replicate channel_count new_channel;
  channel_count = channel_count;
  state = PeerState.connecting;
  address = address;
  connect_id = id;
  mtu = h.mtu;
  window_size = clamp_window (
      if h.outgoing_bandwidth == 0
      then maximum_window_size
      else scaled_window h.outgoing_bandwidth);
}

abbrev pub request : Host → Peer → ℕ → Protocol
request h p user_data = protocol (Command.connect + flag_acknowledge) 0xFF (
    Body.connect (record {
      outgoing_peer_id = p.incoming_peer_id;
      incoming_session_id = p.incoming_session_id;
      outgoing_session_id = p.outgoing_session_id;
      mtu = p.mtu;
      window_size = p.window_size;
      channel_count = p.channel_count;
      incoming_bandwidth = h.incoming_bandwidth;
      outgoing_bandwidth = h.outgoing_bandwidth;
      packet_throttle_interval = p.packet_throttle_interval;
      packet_throttle_acceleration = p.packet_throttle_acceleration;
      packet_throttle_deceleration = p.packet_throttle_deceleration;
      connect_id = p.connect_id;
      user_data = user_data;
    }))

unfoldable pub call_allocated :
    Host → Address → ℕ → ℕ → Peer → Option ℕ × Memory → Option Session × Host
call_allocated h address channel_count user_data p (none, m) = (none, record h { memory = m })
call_allocated h address channel_count user_data p (some a, m) =
    let (id, g) = random (record h { memory = m }) in
    let q = calling_peer h address channel_count id p in
    let s =
      (queue_outgoing_command (record { host = g; peer = q }) (request h q user_data) none 0 0).1 in
    (some s, settle s)

unfoldable pub call_found : Host → Address → ℕ → ℕ → Option Peer → Option Session × Host
unfolding call_allocated
call_found h address channel_count user_data none = (none, h)
call_found h address channel_count user_data (some p) =
    call_allocated h address channel_count user_data p (malloc h.memory)

-- enet_host_connect: the session of the peer that it returns, none for NULL, and the host.
unfoldable pub connect : Host → Address → ℕ → ℕ → Option Session × Host
unfolding call_found find_free
connect h address channel_count user_data =
    call_found h address (clamp_channels channel_count) user_data (find_free h.peers)

-- enet_peer_send to one peer of enet_host_broadcast, if the peer is connected.
unfoldable pub send_to : Host → ℕ → ℕ → ℕ → Host
unfolding focus settle
send_to h channel_id packet i = elim (focus h i) [
  | none ↦ h
  | some s ↦
      if is_state s.peer.state PeerState.connected then settle (send s channel_id packet).1 else h
]

-- The loop over the last n of the peers.
unfoldable pub send_to_last : ℕ → Host → ℕ → ℕ → ℕ → Host
unfolding send_to
send_to_last zero h channel_id packet i = h
send_to_last (suc n) h channel_id packet i =
    send_to_last n (send_to h channel_id packet i) channel_id packet (i + 1)

-- `if (packet->referenceCount == 0) enet_packet_destroy (packet)`.
unfoldable pub destroy_unused : ℕ → Host → Host
unfolding destroy
destroy_unused a h = elim (h.memory.packets a) [
  | none ↦ h
  | some p ↦ if p.reference_count == 0 then record h { memory = destroy a h.memory } else h
]

-- enet_host_broadcast.
unfoldable pub broadcast : Host → ℕ → ℕ → Host
unfolding send_to_last destroy_unused
broadcast h channel_id packet =
    destroy_unused packet (send_to_last (length h.peers) h channel_id packet 0)

-- enet_host_channel_limit.
unfoldable pub channel_limit : Host → ℕ → Host
channel_limit h limit = record h {
  channel_limit =
      if limit == 0 || ltb maximum_channel_count limit
      then maximum_channel_count
      else if ltb limit minimum_channel_count
      then minimum_channel_count
      else limit;
}

-- enet_host_bandwidth_limit.
unfoldable pub bandwidth_limit : Host → ℕ → ℕ → Host
bandwidth_limit h incoming outgoing = record h {
  incoming_bandwidth = incoming;
  outgoing_bandwidth = outgoing;
  recalculate_bandwidth_limits = true;
}
