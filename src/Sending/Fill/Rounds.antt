-- ===== src/Sending/Fill/Rounds.antt =====
-- The loop of enet_protocol_check_outgoing_commands (src/protocol.c) ends: each round takes a command
-- from the two queues.
use mathlib.Core.List.{append-nil}
use mathlib.Core.Option.{some-injective}
use enet_revamp.Base.{
  if_lem, ℕ, zero, suc, ◌+◌, ◌≤◌, ◌<◌, ◌≡◌, refl, sym, inl, inr, some, List, [], ◌∷◌, arith, length,
  Option-cases, Bool-cases,
}
use enet_revamp.Time.{time_less}
use enet_revamp.Packet.{release_option}
use enet_revamp.State.{Memory, OutgoingCommand}
use enet_revamp.Sending.Fill.{
  Filling, Pick, pick, Round, stop, go_on, skip, throttle_packet, drop_same, same_numbers, consider,
  follow, fill,
}
use enet_revamp.Sending.Fill.Walk.{Holds, consider-Holds, stepped}

-- Fewer than n commands wait.
abbrev IsBelow : ℕ → List OutgoingCommand → List OutgoingCommand → Filling → Type 0
IsBelow n plain reliable w = length plain + length reliable < n

length-pick :
    (plain reliable : List OutgoingCommand) (k : Pick)
    → pick plain reliable ≡ some k
    → length k.plain + length k.reliable < length plain + length reliable
unfolding pick
length-pick [] [] k e = cc
length-pick [] (c ∷ reliable) k e = rw (← some-injective _ _ e) (omega arith)
length-pick (o ∷ plain) [] k e = rw (← some-injective _ _ e) (omega arith)
length-pick (o ∷ plain) (c ∷ reliable) k e =
    elim (Bool-cases (time_less c.queue_time o.queue_time)) [
      | inl h ↦ rw (← some-injective _ _ (rw h at e)) (omega arith)
      | inr h ↦ rw (← some-injective _ _ (rw h at e)) (omega arith)
    ]

length-drop_same :
    (o : OutgoingCommand) (commands : List OutgoingCommand) (m : Memory)
    → length (drop_same o commands m).0 ≤ length commands
unfolding drop_same
length-drop_same o [] m = omega arith
length-drop_same o (c ∷ rest) m =
    if_lem (λ (x : List OutgoingCommand × Memory). length x.0 ≤ suc (length rest))
      (same_numbers o c) (λ _. omega (arith, length-drop_same o rest (release_option c.packet m)))
      (λ _. omega arith)

throttled-IsBelow :
    (n : ℕ) (k : Pick) (w : Filling)
    → length k.plain + length k.reliable < n
    → Holds (IsBelow n) (throttle_packet k w)
unfolding throttle_packet Holds
throttled-IsBelow n k w h =
    omega (arith, h, length-drop_same k.command k.plain (release_option k.command.packet w.memory))

round-IsBelow :
    (n now : ℕ) (w : Filling) (k : Pick)
    → length k.plain + length k.reliable < n
    → Holds (IsBelow n) (consider now k w)
unfolding Holds
round-IsBelow n now w k h =
    consider-Holds (IsBelow n) now k w (λ _. h) (omega (arith, h)) (omega (arith, h))
      (λ _. omega (arith, h)) (λ _ _. h) (λ _. throttled-IsBelow n k (stepped k w) h) (λ _ _. h)

-- Two ways to go on agree on a round that leaves fewer than n commands if they agree below n.
follow_same :
    (n : ℕ) (f g : List OutgoingCommand → List OutgoingCommand → Filling → Filling)
    → ((plain reliable : List OutgoingCommand) (w : Filling)
        → length plain + length reliable < n
        → f plain reliable w ≡ g plain reliable w)
    → (r : Round) → Holds (IsBelow n) r
    → follow f r ≡ follow g r
unfolding follow Holds
follow_same n f g same (stop w) h = refl
follow_same n f g same (go_on plain reliable w) h = same plain reliable w h

skip-nil : (w : Filling) → skip [] [] w ≡ w
skip-nil w = rw (append-nil w.skipped, append-nil w.skipped_reliable) refl

fill-same :
    (n m now : ℕ) (plain reliable : List OutgoingCommand) (w : Filling)
    → length plain + length reliable ≤ n
    → length plain + length reliable ≤ m
    → fill n now plain reliable w ≡ fill m now plain reliable w
unfolding fill
fill-same zero zero now plain reliable w h g = refl
fill-same zero (suc m) now [] [] w h g = skip-nil w
fill-same zero (suc m) now [] (x ∷ reliable) w h g = absurd (omega (arith, h))
fill-same zero (suc m) now (x ∷ plain) reliable w h g = absurd (omega (arith, h))
fill-same (suc n) zero now [] [] w h g = sym (skip-nil w)
fill-same (suc n) zero now [] (x ∷ reliable) w h g = absurd (omega (arith, g))
fill-same (suc n) zero now (x ∷ plain) reliable w h g = absurd (omega (arith, g))
fill-same (suc n) (suc m) now plain reliable w h g = elim (Option-cases (pick plain reliable)) [
  | inl e ↦ rw (e, fill) refl
  | inr (k, e) ↦
      rw (e, fill)
        (follow_same (length plain + length reliable) (fill n now) (fill m now)
          (λ plain' reliable' v l.
            fill-same n m now plain' reliable' v (omega (arith, l, h)) (omega (arith, l, g)))
          (consider now k w)
          (round-IsBelow (length plain + length reliable) now w k (length-pick plain reliable k e)))
]

-- As many rounds as the two queues hold commands are enough: with any larger number the loop ends in
-- the same state.
pub fill-enough :
    (n now : ℕ) (plain reliable : List OutgoingCommand) (w : Filling)
    → length plain + length reliable ≤ n
    → fill n now plain reliable w ≡ fill (length plain + length reliable) now plain reliable w
fill-enough n now plain reliable w h =
    fill-same n (length plain + length reliable) now plain reliable w h (omega arith)
