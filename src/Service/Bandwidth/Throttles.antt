-- ===== src/Service/Bandwidth/Throttles.antt =====
-- The packet throttles that enet_host_bandwidth_throttle (src/host.c) sets.
use native.Mathlib.Nat.{div-le_of_le-mul, mul-le-mul_right}
use enet_revamp.Base.{
  if_lem, and_right, ℕ, zero, suc, ◌*◌, ◌/◌, ◌≤◌, ◌<◌, ◌≡◌, inl, inr, true, false, not, ◌&&◌, ◌==◌,
  leb, ltb, List, [], ◌∷◌, arith, length, All, Bool-cases, u32, lt_of_ltb,
}
use enet_revamp.State.{Peer, Host, is_connected}
use enet_revamp.Service.Bandwidth.{
  Share, throttle_of, throttle_scale, is_exceeded, peer_bandwidth, limit_to, at_least_one,
  limit_peer, limit_one, limit_pass, limit_passes, limit_others, start_share, share_outgoing,
}

-- The throttle of a peer does not pass its limit, nor the limit ENET_PEER_PACKET_THROTTLE_SCALE.
pub record IsThrottled (p : Peer) : Type 0 where
  pub below_limit : p.packet_throttle ≤ p.packet_throttle_limit
  pub limit_below_scale : p.packet_throttle_limit ≤ 32

limit_to-IsThrottled : (limit : ℕ) (p : Peer) → limit ≤ 32 → IsThrottled (limit_to limit p)
limit_to-IsThrottled limit p h = record { below_limit = ground arith; limit_below_scale = h }

quotient_le : (a b t : ℕ) → b < u32 (t * a) / 32 → t ≤ 32 → u32 (b * 32) / a ≤ 32
quotient_le a b t h s =
    let bound : t * a ≤ 32 * a = mul-le-mul_right a s in
    div-le_of_le-mul a (omega (arith, h, bound))

ratio_le : (a b : ℕ) → b < a → u32 (b * 32) / a ≤ 32
ratio_le a b h = div-le_of_le-mul a (omega (arith, h))

throttle_of-le : (w : Share) → throttle_of w ≤ 32
unfolding throttle_of
throttle_of-le w =
    if_lem (λ n. n ≤ 32) (leb w.data_total w.bandwidth) (λ _. omega arith)
      (λ h. ratio_le w.data_total w.bandwidth (ground arith))

at_least_one-le : (n : ℕ) → n ≤ 32 → at_least_one n ≤ 32
at_least_one-le n h = ground arith

limit_peer-IsThrottled :
    (now elapsed throttle : ℕ) (p : Peer)
    → is_exceeded now elapsed throttle p ≡ true
    → throttle ≤ 32
    → IsThrottled (limit_peer now elapsed p)
unfolding is_exceeded limit_peer
limit_peer-IsThrottled now elapsed throttle p h t =
    let n = u32 (peer_bandwidth elapsed p * throttle_scale) / p.outgoing_data_total in
    let small =
      quotient_le p.outgoing_data_total (peer_bandwidth elapsed p) throttle
        (lt_of_ltb (peer_bandwidth elapsed p) _
          (and_right _ _ (and_right _ _ (and_right (is_connected p.state) _ h))))
        t in
    let k = limit_to-IsThrottled (at_least_one n) p (at_least_one-le n small) in
    record { below_limit = k.below_limit; limit_below_scale = k.limit_below_scale }

limit_pass-IsThrottled :
    (now elapsed throttle : ℕ) (peers : List Peer) (w : Share)
    → throttle ≤ 32
    → All IsThrottled peers
    → All IsThrottled (limit_pass now elapsed throttle peers w).0
unfolding limit_pass limit_one
limit_pass-IsThrottled now elapsed throttle [] w t h = h
limit_pass-IsThrottled now elapsed throttle (p ∷ rest) w t h = (
  if_lem (λ (end : Peer × Share). IsThrottled end.0) (is_exceeded now elapsed throttle p)
      (λ e. limit_peer-IsThrottled now elapsed throttle p e t) (λ _. h.0),
  limit_pass-IsThrottled now elapsed throttle rest (limit_one now elapsed throttle p w).1 t h.1,
)

limit_passes-IsThrottled :
    (n now elapsed : ℕ) (peers : List Peer) (w : Share)
    → All IsThrottled peers
    → All IsThrottled (limit_passes n now elapsed peers w).0
unfolding limit_passes
limit_passes-IsThrottled zero now elapsed peers w h = h
limit_passes-IsThrottled (suc n) now elapsed peers w h =
    let end = limit_pass now elapsed (throttle_of w) peers (record w { adjusted = false }) in
    elim (Bool-cases (ltb 0 w.remaining && w.adjusted)) [
      | inl more ↦
          rw (more, limit_passes)
            (limit_passes-IsThrottled n now elapsed end.0 end.1 (
              limit_pass-IsThrottled now elapsed (throttle_of w) peers
                (record w { adjusted = false }) (throttle_of-le w) h))
      | inr done ↦ rw (done, limit_passes) h
    ]

limit_others-IsThrottled :
    (now throttle : ℕ) (peers : List Peer)
    → throttle ≤ 32
    → All IsThrottled peers
    → All IsThrottled (limit_others now throttle peers)
unfolding limit_others
limit_others-IsThrottled now throttle [] t h = h
limit_others-IsThrottled now throttle (p ∷ rest) t h = (
  if_lem IsThrottled (is_connected p.state && not (p.outgoing_bandwidth_throttle_epoch == now))
      (λ _. limit_to-IsThrottled throttle p t) (λ _. h.0),
  limit_others-IsThrottled now throttle rest t h.1,
)

-- When the throttle of no peer passes its limit, and no limit passes ENET_PEER_PACKET_THROTTLE_SCALE,
-- then the same holds after the bandwidth of the host was shared, at whatever time, with whatever
-- bandwidths and totals.
pub share_outgoing-IsThrottled :
    (now elapsed : ℕ) (h : Host)
    → All IsThrottled h.peers
    → All IsThrottled (share_outgoing now elapsed h)
unfolding share_outgoing
share_outgoing-IsThrottled now elapsed h k =
    let end = limit_passes (suc (length h.peers)) now elapsed h.peers (start_share elapsed h) in
    let limited =
      limit_passes-IsThrottled (suc (length h.peers)) now elapsed h.peers (start_share elapsed h)
        k in
    if_lem (All IsThrottled) (ltb 0 end.1.remaining)
      (λ _. limit_others-IsThrottled now (throttle_of end.1) end.0 (throttle_of-le end.1) limited)
      (λ _. limited)
