-- ===== src/Peer/Incoming/Order.antt =====
-- The queue of reliable commands stays in sequence order without duplicates
-- (the search of enet_peer_queue_incoming_command in src/peer.c).
use mathlib.Core.List.{reverse, reverse-append, reverse-reverse, reverse-cons, append_assoc}
use enet_revamp.Base.{
  ℕ, ◌<◌, ◌≤◌, ◌≡◌, refl, sym, ap, subst, ◌∙◌, Bool, true, false, ◌==◌, ltb, if◌then◌else◌, List,
  [], ◌∷◌, ◌++◌, arith, length, Bool-cases, ◌⊎◌, inl, inr, sub16, length-append,
}
use enet_revamp.State.{IncomingCommand}
use enet_revamp.Peer.Incoming.{Place, behind, discard, place_reliable, skips, stops, insert_at}

-- How far a number lies behind the channel's reliable number, on the wrapping 16-bit scale.
abbrev pub distance : ℕ → ℕ → ℕ
distance current n = sub16 n current

abbrev pub AllNearer : ℕ → ℕ → List IncomingCommand → Type 0
AllNearer current d [] = Unit {0}
AllNearer current d (c ∷ rest) =
    (distance current c.reliable_sequence_number < d) × AllNearer current d rest

abbrev pub AllFarther : ℕ → ℕ → List IncomingCommand → Type 0
AllFarther current d [] = Unit {0}
AllFarther current d (c ∷ rest) =
    (d < distance current c.reliable_sequence_number) × AllFarther current d rest

-- A reversed queue is in order: each command is a 16-bit number, farther than all before it.
abbrev pub IsDescending : ℕ → List IncomingCommand → Type 0
IsDescending current [] = Unit {0}
IsDescending current (c ∷ before) =
    (c.reliable_sequence_number < 65536)
    × AllNearer current (distance current c.reliable_sequence_number) before
    × IsDescending current before

AllNearer-le :
    (current d e : ℕ) (l : List IncomingCommand)
    → d ≤ e
    → AllNearer current d l
    → AllNearer current e l
AllNearer-le current d e [] h a = tt
AllNearer-le current d e (c ∷ l) h a = (omega arith, AllNearer-le current d e l h a.1)

-- The command with a number stands in the list.
abbrev pub has_number : ℕ → List IncomingCommand → Bool
has_number n [] = false
has_number n (c ∷ rest) = if c.reliable_sequence_number == n then true else has_number n rest

-- What the search answers: the place divides the queue, or the number is there already.
abbrev Fits : ℕ → ℕ → List IncomingCommand → Place → Type 0
Fits current number reversed discard = has_number number reversed ≡ true
Fits current number reversed (behind n) =
    (later earlier : List IncomingCommand) × (reversed ≡ later ++ earlier)
    × (length earlier ≡ n)
    × AllFarther current (distance current number) later
    × AllNearer current (distance current number) earlier

module _ (current number : ℕ) (c : IncomingCommand) (before : List IncomingCommand) where
  further-Fits :
      (p : Place)
      → distance current number < distance current c.reliable_sequence_number
      → Fits current number before p
      → Fits current number (c ∷ before) p
  further-Fits discard lt f = ground arith
  further-Fits (behind n) lt (later, earlier, e, l, far, near) =
      (c ∷ later, earlier, ap (◌∷◌ c) e, l, (lt, far), near)

  here-Fits :
      distance current c.reliable_sequence_number < distance current number
      → IsDescending current (c ∷ before)
      → Fits current number (c ∷ before) (behind (length (c ∷ before)))
  here-Fits lt (_, near, _) =
      ([], c ∷ before, refl, refl, tt, (lt, AllNearer-le current _ _ before (omega arith) near))

place_reliable-Fits :
    (current number : ℕ) (reversed : List IncomingCommand)
    → current < 65536
    → number < 65536
    → IsDescending current reversed
    → Fits current number reversed (place_reliable current number reversed)
unfolding place_reliable
place_reliable-Fits current number [] hc hn d = ([], [], refl, refl, tt, tt)
place_reliable-Fits current number (c ∷ before) hc hn d =
    let further = place_reliable-Fits current number before hc hn d.2 in
    elim (Bool-cases (skips current number c)) [
      | inl a ↦ rw a (further-Fits current number c before _ (ground arith) further)
      | inr a ↦ elim (Bool-cases (stops current number c)) [
        | inl b ↦ rw (a, b) (here-Fits current number c before (ground arith) d)
        | inr b ↦ elim (Bool-cases (ltb c.reliable_sequence_number number)) [
          | inl l ↦ rw (a, b, l) (here-Fits current number c before (ground arith) d)
          | inr l ↦ elim (Bool-cases (c.reliable_sequence_number == number)) [
            | inl e ↦ rw (a, b, l, e) (rw e)
            | inr e ↦
                rw (a, b, l, e) (further-Fits current number c before _ (ground arith) further)
          ]
        ]
      ]
    ]

AllNearer-insert :
    (current d : ℕ) (new : IncomingCommand) (later earlier : List IncomingCommand)
    → distance current new.reliable_sequence_number < d
    → AllNearer current d (later ++ earlier)
    → AllNearer current d (later ++ new ∷ earlier)
AllNearer-insert current d new [] earlier h a = (h, a)
AllNearer-insert current d new (c ∷ later) earlier h a =
    (a.0, AllNearer-insert current d new later earlier h a.1)

IsDescending-insert :
    (current : ℕ) (new : IncomingCommand) (later earlier : List IncomingCommand)
    → new.reliable_sequence_number < 65536
    → AllFarther current (distance current new.reliable_sequence_number) later
    → AllNearer current (distance current new.reliable_sequence_number) earlier
    → IsDescending current (later ++ earlier)
    → IsDescending current (later ++ new ∷ earlier)
IsDescending-insert current new [] earlier h far near d = (h, near, d)
IsDescending-insert current new (c ∷ later) earlier h (lt, far) near (small, all, d) = (
  small,
  AllNearer-insert current _ new later earlier lt all,
  IsDescending-insert current new later earlier h far near d,
)

insert_at-append :
    (new : IncomingCommand) (xs ys : List IncomingCommand)
    → insert_at (length xs) new (xs ++ ys) ≡ xs ++ new ∷ ys
insert_at-append new [] ys = refl
insert_at-append new (x ∷ xs) ys = ap (◌∷◌ x) (insert_at-append new xs ys)

length-reverse : (xs : List IncomingCommand) → length (reverse xs) ≡ length xs
length-reverse [] = refl
length-reverse (x ∷ xs) =
    ap length (reverse-cons x xs)
    ∙ omega (arith, length-append (reverse xs) (x ∷ []), length-reverse xs)

reverse-insert_at :
    (new : IncomingCommand) (queue later earlier : List IncomingCommand)
    → reverse queue ≡ later ++ earlier
    → reverse (insert_at (length earlier) new queue) ≡ later ++ new ∷ earlier
reverse-insert_at new queue later earlier e =
    let split : queue ≡ reverse earlier ++ reverse later =
      sym (reverse-reverse queue) ∙ (ap reverse e ∙ reverse-append later earlier) in
    rw (split, ← length-reverse earlier, insert_at-append new (reverse earlier) (reverse later))
      (reverse-append (reverse earlier) (new ∷ reverse later)
        ∙ simp (reverse-cons, reverse-reverse, append_assoc))

absent-far :
    (current n : ℕ) (l : List IncomingCommand)
    → AllFarther current (distance current n) l
    → has_number n l ≡ false
absent-far current n [] a = refl
absent-far current n (c ∷ l) a = ground (arith, absent-far current n l a.1)

absent-near :
    (current n : ℕ) (l : List IncomingCommand)
    → AllNearer current (distance current n) l
    → has_number n l ≡ false
absent-near current n [] a = refl
absent-near current n (c ∷ l) a = ground (arith, absent-near current n l a.1)

has_number-append :
    (n : ℕ) (xs ys : List IncomingCommand)
    → has_number n xs ≡ false
    → has_number n ys ≡ false
    → has_number n (xs ++ ys) ≡ false
has_number-append n [] ys a b = b
has_number-append n (c ∷ xs) ys a b = ground (arith, has_number-append n xs ys)

-- In a queue in order the search of a reliable command with a 16-bit number has one of two
-- outcomes: the number is queued already and the command is discarded; or it is not, and the
-- command's place keeps the queue in order, without duplicates, also where the numbers wrap.
pub place_reliable-keeps_order :
    (current : ℕ) (new : IncomingCommand) (queue : List IncomingCommand)
    → current < 65536
    → new.reliable_sequence_number < 65536
    → IsDescending current (reverse queue)
    → ((place_reliable current new.reliable_sequence_number (reverse queue) ≡ discard)
        × (has_number new.reliable_sequence_number (reverse queue) ≡ true))
      ⊎ ((n : ℕ) × (place_reliable current new.reliable_sequence_number (reverse queue) ≡ behind n)
          × (has_number new.reliable_sequence_number (reverse queue) ≡ false)
          × IsDescending current (reverse (insert_at n new queue)))
place_reliable-keeps_order current new queue hc hn d =
    answer (place_reliable current new.reliable_sequence_number (reverse queue))
      (place_reliable-Fits current new.reliable_sequence_number (reverse queue) hc hn d)
  where
    answer :
        (p : Place)
        → Fits current new.reliable_sequence_number (reverse queue) p
        → ((p ≡ discard) × (has_number new.reliable_sequence_number (reverse queue) ≡ true))
          ⊎ ((n : ℕ) × (p ≡ behind n)
              × (has_number new.reliable_sequence_number (reverse queue) ≡ false)
              × IsDescending current (reverse (insert_at n new queue)))
    answer discard f = inl (refl, f)
    answer (behind n) (later, earlier, e, l, far, near) = inr (
      n,
      refl,
      rw e (
          has_number-append new.reliable_sequence_number later earlier
            (absent-far current _ later far) (absent-near current _ earlier near)),
      rw (← l, reverse-insert_at new queue later earlier e)
          (IsDescending-insert current new later earlier hn far near
            (subst (IsDescending current) e d)),
    )
