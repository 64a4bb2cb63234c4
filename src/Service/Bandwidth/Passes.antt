-- ===== src/Service/Bandwidth/Passes.antt =====
-- The loops of enet_host_bandwidth_throttle (src/host.c) end: a pass that limits a peer stamps it
-- with the time, and no later pass takes it again.
use enet_revamp.Base.{
  if_lem, ℕ, zero, suc, ◌+◌, ◌≤◌, ◌<◌, ◌≡◌, ◌⊎◌, inl, inr, refl, sym, ◌∙◌, Bool, true, false, ◌&&◌,
  ◌==◌, ltb, if◌then◌else◌, List, [], ◌∷◌, arith, length, Bool-cases,
}
use enet_revamp.State.{Peer}
use enet_revamp.Service.Bandwidth.{
  Share, throttle_of, is_exceeded, limit_peer, limit_one, limit_pass, limit_passes,
}

-- The peers that no pass has stamped.
abbrev mark : ℕ → Peer → ℕ
mark now p = if p.outgoing_bandwidth_throttle_epoch == now then 0 else 1

abbrev unstamped : ℕ → List Peer → ℕ
unstamped now [] = 0
unstamped now (p ∷ rest) = mark now p + unstamped now rest

unstamped-le : (now : ℕ) (peers : List Peer) → unstamped now peers ≤ length peers
unstamped-le now [] = omega arith
unstamped-le now (p ∷ rest) = ground (arith, unstamped-le now rest)

limit_peer-mark :
    (now elapsed throttle : ℕ) (p : Peer)
    → is_exceeded now elapsed throttle p ≡ true
    → mark now (limit_peer now elapsed p) < mark now p
unfolding is_exceeded limit_peer
limit_peer-mark now elapsed throttle p h = ground arith

-- The number of such peers goes down, or stays and with it `needsAdjustment`.
Progress : ℕ → Bool → ℕ → Bool → Type 0
Progress before was after is = (after < before) ⊎ (after ≤ before) × (is ≡ was)

limit_one-Progress :
    (now elapsed throttle : ℕ) (p : Peer) (w : Share)
    → Progress
        (mark now p)
        w.adjusted
        (mark now (limit_one now elapsed throttle p w).0)
        (limit_one now elapsed throttle p w).1.adjusted
unfolding Progress limit_one
limit_one-Progress now elapsed throttle p w =
    if_lem
      (λ (end : Peer × Share).
        (mark now end.0 < mark now p)
        ⊎ (mark now end.0 ≤ mark now p) × (end.1.adjusted ≡ w.adjusted))
      (is_exceeded now elapsed throttle p) (λ h. inl (limit_peer-mark now elapsed throttle p h))
      (λ _. inr (omega arith, refl))

unmoved : (was : Bool) → Progress 0 was 0 was
unfolding Progress
unmoved was = inr (omega arith, refl)

cases :
    {before after : ℕ} {is : Bool}
    → Progress before false after is
    → (after < before) ⊎ (is ≡ false)
unfolding Progress
cases (inl h) = inl h
cases (inr (_, e)) = inr e

both_Progress :
    (a b c d : ℕ) (was between is : Bool)
    → Progress a was b between
    → Progress c between d is
    → Progress (a + c) was (b + d) is
unfolding Progress
both_Progress a b c d was between is (inl h) (inl g) = inl (omega (arith, h, g))
both_Progress a b c d was between is (inl h) (inr (g, _)) = inl (omega (arith, h, g))
both_Progress a b c d was between is (inr (h, _)) (inl g) = inl (omega (arith, h, g))
both_Progress a b c d was between is (inr (h, e)) (inr (g, f)) = inr (omega (arith, h, g), f ∙ e)

limit_pass-Progress :
    (now elapsed throttle : ℕ) (peers : List Peer) (w : Share)
    → Progress
        (unstamped now peers)
        w.adjusted
        (unstamped now (limit_pass now elapsed throttle peers w).0)
        (limit_pass now elapsed throttle peers w).1.adjusted
unfolding limit_pass
limit_pass-Progress now elapsed throttle [] w = unmoved w.adjusted
limit_pass-Progress now elapsed throttle (p ∷ rest) w =
    let one = limit_one now elapsed throttle p w in
    let end = limit_pass now elapsed throttle rest one.1 in
    both_Progress (mark now p) (mark now one.0) (unstamped now rest) (unstamped now end.0)
      w.adjusted one.1.adjusted end.1.adjusted (limit_one-Progress now elapsed throttle p w)
      (limit_pass-Progress now elapsed throttle rest one.1)

and_false : (a b : Bool) → b ≡ false → (a && b) ≡ false
and_false true b h = h
and_false false b h = refl

limit_passes-stopped :
    (n now elapsed : ℕ) (peers : List Peer) (w : Share)
    → w.adjusted ≡ false
    → limit_passes n now elapsed peers w ≡ (peers, w)
unfolding limit_passes
limit_passes-stopped zero now elapsed peers w h = refl
limit_passes-stopped (suc n) now elapsed peers w h =
    rw (and_false (ltb 0 w.remaining) w.adjusted h, limit_passes) refl

-- n passes and m passes end alike when there are fewer peers to stamp.
limit_passes-same :
    (n m now elapsed : ℕ) (peers : List Peer) (w : Share)
    → unstamped now peers < n
    → unstamped now peers < m
    → limit_passes n now elapsed peers w ≡ limit_passes m now elapsed peers w
unfolding limit_passes
limit_passes-same zero m now elapsed peers w h g = absurd (omega (arith, h))
limit_passes-same (suc n) zero now elapsed peers w h g = absurd (omega (arith, g))
limit_passes-same (suc n) (suc m) now elapsed peers w h g =
    elim (Bool-cases (ltb 0 w.remaining && w.adjusted)) [
      | inl more ↦
          let end = limit_pass now elapsed (throttle_of w) peers (record w { adjusted = false }) in
          rw (more, limit_passes)
            (elim (cases (
              limit_pass-Progress now elapsed (throttle_of w) peers
                (record w { adjusted = false }))) [
                  | inl less ↦
                      limit_passes-same n m now elapsed end.0 end.1 (omega (arith, less, h))
                        (omega (arith, less, g))
                  | inr stopped ↦
                      limit_passes-stopped n now elapsed end.0 end.1 stopped
                      ∙ sym (limit_passes-stopped m now elapsed end.0 end.1 stopped)
                ])
      | inr done ↦ rw (done, limit_passes) refl
    ]

-- The loop that limits peers ends by its own test: one pass more than there are peers is enough, and
-- any larger number of passes gives the same peers and the same shares.
pub limit_passes-enough :
    (n now elapsed : ℕ) (peers : List Peer) (w : Share)
    → length peers < n
    → limit_passes n now elapsed peers w ≡ limit_passes (suc (length peers)) now elapsed peers w
limit_passes-enough n now elapsed peers w h =
    limit_passes-same n (suc (length peers)) now elapsed peers w
      (omega (arith, h, unstamped-le now peers)) (omega (arith, unstamped-le now peers))
