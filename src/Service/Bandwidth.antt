-- ===== src/Service/Bandwidth.antt =====
-- Sharing the bandwidth of a host among its peers: enet_host_bandwidth_throttle of src/host.c. The
-- clock (enet_time_get of src/unix.c) is the argument `now`. Numbers are enet_uint32 and wrap.
pub mod Passes
pub mod Throttles
use enet_revamp.Base.{
  ℕ, zero, suc, ◌+◌, ◌*◌, ◌/◌, Bool, true, false, not, ◌&&◌, ◌||◌, ◌==◌, leb, ltb, if◌then◌else◌,
  Option, none, some, List, [], ◌∷◌, length, u32, sub32,
}
use enet_revamp.Protocol.{Protocol, Body, protocol, flag_acknowledge}
use enet_revamp.Protocol.Command
use enet_revamp.State.{Peer, Host, Session, is_connected}
use enet_revamp.Session.{focus, settle}
use enet_revamp.Peer.Outgoing.{queue_outgoing_command}

-- ENET_HOST_BANDWIDTH_THROTTLE_INTERVAL and ENET_PEER_PACKET_THROTTLE_SCALE.
abbrev pub throttle_interval : ℕ
throttle_interval = 1000

abbrev pub throttle_scale : ℕ
throttle_scale = 32

-- What is still to be shared: `peersRemaining`, `dataTotal` and `bandwidth`, and `needsAdjustment`.
pub record Share : Type 0 where
  pub remaining : ℕ
  pub data_total : ℕ
  pub bandwidth : ℕ
  pub adjusted : Bool

-- The outgoing data of the connected peers.
unfoldable pub total_data : List Peer → ℕ → ℕ
total_data [] total = total
total_data (p ∷ rest) total =
    total_data rest (if is_connected p.state then u32 (total + p.outgoing_data_total) else total)

-- What the peers may send of what they have sent, in thirty-seconds.
unfoldable pub throttle_of : Share → ℕ
throttle_of w =
    if leb w.data_total w.bandwidth
    then throttle_scale
    else u32 (w.bandwidth * throttle_scale) / w.data_total

-- The data that a peer can receive in the time elapsed.
abbrev pub peer_bandwidth : ℕ → Peer → ℕ
peer_bandwidth elapsed p = u32 (p.incoming_bandwidth * elapsed) / 1000

-- The peer is connected, has a limit, was not limited in an earlier round, and would be sent more
-- than it can receive.
unfoldable pub is_exceeded : ℕ → ℕ → ℕ → Peer → Bool
is_exceeded now elapsed throttle p =
    is_connected p.state
    && (not (p.incoming_bandwidth == 0)
        && (not (p.outgoing_bandwidth_throttle_epoch == now)
            && ltb (peer_bandwidth elapsed p)
                (u32 (throttle * p.outgoing_data_total) / throttle_scale)))

-- `packetThrottle` does not pass `packetThrottleLimit`, and the totals start again.
abbrev pub limit_to : ℕ → Peer → Peer
limit_to limit p = record p {
  packet_throttle_limit = limit;
  packet_throttle = if ltb limit p.packet_throttle then limit else p.packet_throttle;
  incoming_data_total = 0;
  outgoing_data_total = 0;
}

abbrev pub at_least_one : ℕ → ℕ
at_least_one n = if n == 0 then 1 else n

unfoldable pub limit_peer : ℕ → ℕ → Peer → Peer
limit_peer now elapsed p =
    record (limit_to
      (at_least_one (u32 (peer_bandwidth elapsed p * throttle_scale) / p.outgoing_data_total)) p) {
        outgoing_bandwidth_throttle_epoch = now;
      }

unfoldable pub take_share : ℕ → Peer → Share → Share
take_share elapsed p w = record {
  remaining = sub32 w.remaining 1;
  data_total = sub32 w.data_total (peer_bandwidth elapsed p);
  bandwidth = sub32 w.bandwidth (peer_bandwidth elapsed p);
  adjusted = true;
}

-- One pass over the peers, with the throttle of its beginning.
unfoldable pub limit_one : ℕ → ℕ → ℕ → Peer → Share → Peer × Share
unfolding is_exceeded limit_peer take_share
limit_one now elapsed throttle p w =
    if is_exceeded now elapsed throttle p
    then (limit_peer now elapsed p, take_share elapsed p w)
    else (p, w)

unfoldable pub limit_pass : ℕ → ℕ → ℕ → List Peer → Share → List Peer × Share
unfolding limit_one
limit_pass now elapsed throttle [] w = ([], w)
limit_pass now elapsed throttle (p ∷ rest) w =
    let (q, v) = limit_one now elapsed throttle p w in
    let (qs, u) = limit_pass now elapsed throttle rest v in (q ∷ qs, u)

-- `while (peersRemaining > 0 && needsAdjustment != 0)`. Every pass but the last limits a peer that
-- no later pass limits, so one pass more than there are peers is enough.
unfoldable pub limit_passes : ℕ → ℕ → ℕ → List Peer → Share → List Peer × Share
unfolding limit_pass throttle_of
limit_passes zero now elapsed peers w = (peers, w)
limit_passes (suc n) now elapsed peers w = elim (ltb 0 w.remaining && w.adjusted) [
  | true ↦
      let (q, v) = limit_pass now elapsed (throttle_of w) peers (record w { adjusted = false }) in
      limit_passes n now elapsed q v
  | false ↦ (peers, w)
]

-- The peers that no pass has limited share the rest.
unfoldable pub limit_others : ℕ → ℕ → List Peer → List Peer
limit_others now throttle [] = []
limit_others now throttle (p ∷ rest) =
    let q =
      if is_connected p.state && not (p.outgoing_bandwidth_throttle_epoch == now)
      then limit_to throttle p
      else p in
    q ∷ limit_others now throttle rest

-- The outgoing half: the throttles of the peers. A bandwidth of 0 is none.
abbrev pub start_share : ℕ → Host → Share
start_share elapsed h =
    let limited = not (h.outgoing_bandwidth == 0) in
    record {
      remaining = u32 h.connected_peers;
      data_total = if limited then total_data h.peers 0 else 4294967295;
      bandwidth = if limited then u32 (h.outgoing_bandwidth * elapsed) / 1000 else 4294967295;
      adjusted = ltb 0 h.bandwidth_limited_peers;
    }

unfoldable pub share_outgoing : ℕ → ℕ → Host → List Peer
unfolding total_data limit_passes limit_others throttle_of
share_outgoing now elapsed h =
    let (q, w) = limit_passes (suc (length h.peers)) now elapsed h.peers (start_share elapsed h) in
    if ltb 0 w.remaining then limit_others now (throttle_of w) q else q

-- The incoming half: peers that send less than their share keep what they send.
unfoldable pub fits_share : ℕ → ℕ → Peer → Bool
fits_share now limit p =
    is_connected p.state
    && (not (p.incoming_bandwidth_throttle_epoch == now)
        && not (ltb 0 p.outgoing_bandwidth && leb limit p.outgoing_bandwidth))

unfoldable pub fit_one : ℕ → ℕ → Peer → Share → Peer × Share
unfolding fits_share
fit_one now limit p w =
    if fits_share now limit p
    then (
      record p { incoming_bandwidth_throttle_epoch = now },
      record w {
        remaining = sub32 w.remaining 1;
        bandwidth = sub32 w.bandwidth p.outgoing_bandwidth;
        adjusted = true;
      },
    )
    else (p, w)

unfoldable pub fit_pass : ℕ → ℕ → List Peer → Share → List Peer × Share
unfolding fit_one
fit_pass now limit [] w = ([], w)
fit_pass now limit (p ∷ rest) w =
    let (q, v) = fit_one now limit p w in let (qs, u) = fit_pass now limit rest v in (q ∷ qs, u)

-- The loop, with the `bandwidthLimit` that it leaves. Every pass but the last finds a peer that fits.
unfoldable pub fit_passes : ℕ → ℕ → ℕ → List Peer → Share → List Peer × ℕ
unfolding fit_pass
fit_passes zero now limit peers w = (peers, limit)
fit_passes (suc n) now limit peers w = elim (ltb 0 w.remaining && w.adjusted) [
  | true ↦
      let (q, v) = fit_pass now (w.bandwidth / w.remaining) peers (record w { adjusted = false }) in
      fit_passes n now (w.bandwidth / w.remaining) q v
  | false ↦ (peers, limit)
]

unfoldable pub share_incoming : ℕ → Host → List Peer × ℕ
unfolding fit_passes
share_incoming now h =
    if h.incoming_bandwidth == 0
    then (h.peers, 0)
    else fit_passes (suc (length h.peers)) now 0 h.peers (record {
      remaining = u32 h.connected_peers;
      data_total = 0;
      bandwidth = h.incoming_bandwidth;
      adjusted = true;
    })

abbrev pub limit_command : ℕ → Host → Peer → ℕ → Protocol
limit_command now h p limit = protocol (Command.bandwidth_limit + flag_acknowledge) 0xFF (
    Body.bandwidth_limit (record {
      incoming_bandwidth =
          if p.incoming_bandwidth_throttle_epoch == now then p.outgoing_bandwidth else limit;
      outgoing_bandwidth = h.outgoing_bandwidth;
    }))

-- The BANDWIDTH_LIMIT command to one peer, and the loop over the last n of the peers.
unfoldable pub tell_peer : ℕ → ℕ → ℕ → Host → Host
unfolding focus settle
tell_peer now limit i h = elim (focus h i) [
  | none ↦ h
  | some s ↦
      if is_connected s.peer.state
      then settle (queue_outgoing_command s (limit_command now h s.peer limit) none 0 0).1
      else h
]

unfoldable pub tell_last : ℕ → ℕ → ℕ → ℕ → Host → Host
unfolding tell_peer
tell_last zero now limit i h = h
tell_last (suc n) now limit i h = tell_last n now limit (i + 1) (tell_peer now limit i h)

unfoldable pub tell_limits : ℕ → Host → Host
unfolding share_incoming tell_last
tell_limits now h =
    let g = record h { recalculate_bandwidth_limits = false } in
    let (peers, limit) = share_incoming now g in
    tell_last (length peers) now limit 0 (record g { peers = peers })

-- enet_host_bandwidth_throttle.
unfoldable pub bandwidth_throttle : ℕ → Host → Host
unfolding share_outgoing tell_limits
bandwidth_throttle now h =
    let elapsed = sub32 now h.bandwidth_throttle_epoch in
    let g = record h { bandwidth_throttle_epoch = now } in
    let shared = record g { peers = share_outgoing now elapsed g } in
    if ltb elapsed throttle_interval
    then h
    else if u32 h.connected_peers == 0
    then g
    else if h.recalculate_bandwidth_limits
    then tell_limits now shared
    else shared
