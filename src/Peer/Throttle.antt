-- ===== src/Peer/Throttle.antt =====
-- The packet throttle: enet_peer_throttle of src/peer.c, and what it keeps.
use enet_revamp.Base.{ℕ, ◌+◌, ◌*◌, ◌≤◌, ◌<◌, ◌≡◌, ◌⊎◌, leb, ltb, if◌then◌else◌, arith, u32, sub32}
use enet_revamp.State.{Peer}

-- What enet_peer_throttle returns: 1, -1 or 0.
pub data Adjustment : Type 0 where
  raised lowered unchanged : Adjustment

-- enet_peer_throttle, for the round trip time of a packet just acknowledged.
unfoldable pub throttle : Peer → ℕ → Adjustment × Peer
throttle p rtt =
    let sum = u32 (p.packet_throttle + p.packet_throttle_acceleration) in
    if leb p.last_round_trip_time p.last_round_trip_time_variance
    then (unchanged, record p { packet_throttle = p.packet_throttle_limit })
    else if leb rtt p.last_round_trip_time
    then (
      raised,
      record p {
        packet_throttle = if ltb p.packet_throttle_limit sum then p.packet_throttle_limit else sum;
      },
    )
    else if ltb (u32 (p.last_round_trip_time + u32 (2 * p.last_round_trip_time_variance))) rtt
    then (
      lowered,
      record p {
        packet_throttle =
            if ltb p.packet_throttle_deceleration p.packet_throttle
            then sub32 p.packet_throttle p.packet_throttle_deceleration
            else 0;
      },
    )
    else (unchanged, p)

-- A throttle within its 32-bit limit stays within it and no other field changes. The return value
-- says which way it went: not down for 1, unless its sum with the acceleration wraps; down, by at most
-- the deceleration, or nowhere for -1; and for 0 it is as it was or at its limit.
pub throttle_bounds :
    (p : Peer) (rtt : ℕ)
    → p.packet_throttle ≤ p.packet_throttle_limit
    → p.packet_throttle_limit < 4294967296
    → ((throttle p rtt).1.packet_throttle ≤ p.packet_throttle_limit)
      × ((throttle p rtt).1 ≡ record p { packet_throttle = (throttle p rtt).1.packet_throttle })
      × (((throttle p rtt).0 ≡ raised)
            × ((p.packet_throttle ≤ (throttle p rtt).1.packet_throttle)
                ⊎ (4294967296 ≤ p.packet_throttle + p.packet_throttle_acceleration))
          ⊎ ((throttle p rtt).0 ≡ lowered)
            × ((throttle p rtt).1.packet_throttle ≤ p.packet_throttle)
            × (p.packet_throttle
                ≤ (throttle p rtt).1.packet_throttle + p.packet_throttle_deceleration)
          ⊎ ((throttle p rtt).0 ≡ unchanged)
            × (((throttle p rtt).1.packet_throttle ≡ p.packet_throttle)
                ⊎ ((throttle p rtt).1.packet_throttle ≡ p.packet_throttle_limit)))
unfolding throttle
throttle_bounds p rtt h k = ground arith
