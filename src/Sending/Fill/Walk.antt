-- ===== src/Sending/Fill/Walk.antt =====
-- How to reason about the loop of enet_protocol_check_outgoing_commands (src/protocol.c): a
-- statement on the queues that remain and on the loop's variables.
use enet_revamp.Base.{
  if_lem, and_right, refuted, confirmed, clash, ℕ, zero, suc, Bool, true, false, not, ◌&&◌, ◌≡◌,
  ◌⊎◌, refl, subst, All, Bool-cases, none, some, List, [], ◌∷◌, Option-cases, inl, inr,
}
use enet_revamp.Protocol.{wants_acknowledge}
use mathlib.Core.Option.{some-injective}
use enet_revamp.Time.{time_less}
use enet_revamp.Packet.{release_option}
use enet_revamp.State.{Memory, OutgoingCommand}
use enet_revamp.Session.{channel_at}
use enet_revamp.Sending.Windows.{is_blocked, has_channel, is_past_window}
use enet_revamp.Sending.Fill.{
  Filling, Pick, pick, Round, stop, go_on, skip, pass, pass_reliable, has_no_room, break_off,
  emit_reliable, emit_unreliable, step_throttle, is_throttled, throttle_packet, emit, consider,
  follow, fill, drop_same, same_numbers,
}

-- The variables as they stand before a command without the acknowledge flag goes out.
abbrev pub stepped : Pick → Filling → Filling
stepped k w = record w { peer = step_throttle k.command w.peer }

abbrev pub asked : Pick → Bool
asked k = wants_acknowledge k.command.command.header.command

module _ {ℓ} (P : List OutgoingCommand → List OutgoingCommand → Filling → Type ℓ) where
  unfoldable pub Holds : Round → Type ℓ
  Holds (stop v) = P [] [] v
  Holds (go_on plain reliable v) = P plain reliable v

  emit-Holds :
      (now : ℕ) (k : Pick) (w : Filling)
      → Holds (stop (break_off k w))
      → (asked k ≡ true
          → has_no_room w.peer.mtu k.command w.datagram ≡ false
          → Holds (go_on k.plain k.reliable (emit_reliable now k.command w)))
      → (asked k ≡ false → Holds (throttle_packet k (stepped k w)))
      → (asked k ≡ false
          → has_no_room w.peer.mtu k.command w.datagram ≡ false
          → Holds (go_on k.plain k.reliable (emit_unreliable k.command (stepped k w))))
      → Holds (emit now k w)
  unfolding emit
  emit-Holds now k w broken acknowledged throttled plain =
      if_lem Holds (has_no_room w.peer.mtu k.command w.datagram) (λ _. broken)
        λ room.
          if_lem Holds (asked k) (λ h. acknowledged h room)
            λ h.
              if_lem Holds (is_throttled k.command (step_throttle k.command w.peer))
                (λ _. throttled h) (λ _. plain h room)

  pub consider-Holds :
      (now : ℕ) (k : Pick) (w : Filling)
      → (w.window_wrap ≡ true → Holds (pass k w))
      → Holds (pass_reliable k (record w { window_wrap = true }))
      → Holds (pass_reliable k w)
      → ((ping : Bool) → Holds (stop (break_off k (record w { can_ping = ping }))))
      → (asked k ≡ true
          → has_no_room w.peer.mtu k.command w.datagram ≡ false
          → Holds (
              go_on k.plain k.reliable
                (emit_reliable now k.command (record w { can_ping = false }))))
      → (asked k ≡ false → Holds (throttle_packet k (stepped k w)))
      → (asked k ≡ false
          → has_no_room w.peer.mtu k.command w.datagram ≡ false
          → Holds (go_on k.plain k.reliable (emit_unreliable k.command (stepped k w))))
      → Holds (consider now k w)
  unfolding consider
  consider-Holds now k w passed wrapped full broken acknowledged throttled plain =
      let o = k.command in
      let p = w.peer in
      if_lem Holds (not (asked k))
        (λ e.
          emit-Holds now k w (broken w.can_ping)
            (λ h _. absurd (clash (asked k) h (refuted (asked k) e))) throttled plain)
        λ e.
          if_lem Holds (has_channel o p && w.window_wrap)
            (λ b. passed (and_right (has_channel o p) w.window_wrap b))
            λ _.
              if_lem Holds
                (has_channel o p && is_blocked o (channel_at p o.command.header.channel_id))
                (λ _. wrapped)
                λ _.
                  if_lem Holds (is_past_window o p) (λ _. full)
                    λ _.
                      emit-Holds now k (record w { can_ping = false }) (broken false) acknowledged
                        (λ h. absurd (clash (asked k) (confirmed (asked k) e) h))
                        (λ h _. absurd (clash (asked k) (confirmed (asked k) e) h))

  follow-keeps :
      (next : List OutgoingCommand → List OutgoingCommand → Filling → Filling)
      → ((plain reliable : List OutgoingCommand) (w : Filling)
          → P plain reliable w
          → P [] [] (next plain reliable w))
      → (r : Round) → Holds r
      → P [] [] (follow next r)
  unfolding follow Holds
  follow-keeps next keep (stop w) h = h
  follow-keeps next keep (go_on plain reliable w) h = keep plain reliable w h

  -- What each round keeps, the loop keeps.
  pub fill-keeps :
      (now : ℕ)
      → ((w : Filling) (k : Pick) (plain reliable : List OutgoingCommand)
          → pick plain reliable ≡ some k
          → P plain reliable w
          → Holds (consider now k w))
      → ((w : Filling) (plain reliable : List OutgoingCommand)
          → P plain reliable w
          → P [] [] (skip plain reliable w))
      → ((w : Filling) (plain reliable : List OutgoingCommand)
          → pick plain reliable ≡ none
          → P plain reliable w
          → P [] [] w)
      → (n : ℕ) (plain reliable : List OutgoingCommand) (w : Filling) → P plain reliable w
      → P [] [] (fill n now plain reliable w)
  unfolding fill
  fill-keeps now round last empty zero plain reliable w h = last w plain reliable h
  fill-keeps now round last empty (suc n) plain reliable w h =
      elim (Option-cases (pick plain reliable)) [
        | inl e ↦ rw (e, fill) (empty w plain reliable e h)
        | inr (k, e) ↦
            rw (e, fill)
              (follow-keeps (fill n now)
                (λ plain' reliable' v g. fill-keeps now round last empty n plain' reliable' v g)
                (consider now k w) (round w k plain reliable e h))
      ]

-- What is left of the queues, and the command taken from one of them.
abbrev pub Picked {ℓ} : (OutgoingCommand → Type ℓ) → (OutgoingCommand → Type ℓ) → Pick → Type ℓ
Picked Q R k =
    ((k.from_reliable ≡ true) × R k.command ⊎ (k.from_reliable ≡ false) × Q k.command)
    × All Q k.plain
    × All R k.reliable

pub pick-Picked {ℓ} :
    (Q R : OutgoingCommand → Type ℓ) (plain reliable : List OutgoingCommand) (k : Pick)
    → pick plain reliable ≡ some k
    → All Q plain
    → All R reliable
    → Picked Q R k
unfolding pick
pick-Picked Q R [] [] k e q r = cc
pick-Picked Q R [] (c ∷ reliable) k e q r =
    subst (Picked Q R) (some-injective _ _ e) (inl (refl, r.0), q, r.1)
pick-Picked Q R (o ∷ plain) [] k e q r =
    subst (Picked Q R) (some-injective _ _ e) (inr (refl, q.0), q.1, r)
pick-Picked Q R (o ∷ plain) (c ∷ reliable) k e q r =
    elim (Bool-cases (time_less c.queue_time o.queue_time)) [
      | inl h ↦ subst (Picked Q R) (some-injective _ _ (rw h at e)) (inl (refl, r.0), q, r.1)
      | inr h ↦ subst (Picked Q R) (some-injective _ _ (rw h at e)) (inr (refl, q.0), q.1, r)
    ]

pub drop_same-All {ℓ} :
    (Q : OutgoingCommand → Type ℓ) (o : OutgoingCommand) (commands : List OutgoingCommand)
    (m : Memory)
    → All Q commands
    → All Q (drop_same o commands m).0
unfolding drop_same
drop_same-All Q o [] m q = q
drop_same-All Q o (c ∷ rest) m q =
    if_lem (λ (x : List OutgoingCommand × Memory). All Q x.0) (same_numbers o c)
      (λ _. drop_same-All Q o rest (release_option c.packet m) q.1) (λ _. q)
