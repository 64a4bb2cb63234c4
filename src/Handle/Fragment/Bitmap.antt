-- ===== src/Handle/Fragment/Bitmap.antt =====
-- The bitmap of a fragmented command against the number of fragments that it still waits for
-- (the handlers of fragments in src/protocol.c).
use enet_revamp.Base.{
  ℕ, zero, suc, ap, Option, none, ◌+◌, ◌≤◌, ◌<◌, ◌≡◌, refl, sym, subst, ◌∙◌, Bool, true, false,
  ◌||◌, ◌==◌, ltb, if◌then◌else◌, some, List, [], ◌∷◌, arith, Bool-cases, inl, inr,
}
use enet_revamp.Protocol.{Protocol, SendFragment}
use enet_revamp.State.{IncomingCommand, Memory, update}
use enet_revamp.Peer.Incoming.{incoming}
use enet_revamp.Handle.Fragment.{bitmap, tick_off, take_fragment}
use enet_revamp.Handle.Send.{Received}

-- How many of the first n bits are set.
abbrev pub count_set : ℕ → (ℕ → Bool) → ℕ
count_set zero bits = 0
count_set (suc n) bits = (if bits n then 1 else 0) + count_set n bits

count_set_bound : (n : ℕ) (bits : ℕ → Bool) → count_set n bits ≤ n
count_set_bound zero bits = omega arith
count_set_bound (suc n) bits = ground (arith, count_set_bound n bits)

count_set-update :
    (n k : ℕ) (bits : ℕ → Bool)
    → bits k ≡ false
    → count_set n (update bits k true) ≡ count_set n bits + (if ltb k n then 1 else 0)
count_set-update zero k bits h = ground arith
count_set-update (suc n) k bits h = ground (arith, count_set-update n k bits h)

count_set_full : (n i : ℕ) (bits : ℕ → Bool) → count_set n bits ≡ n → i < n → bits i ≡ true
count_set_full zero i bits e h = absurd (omega arith)
count_set_full (suc n) i bits e h = elim (Bool-cases (bits n)) [
  | inl set ↦ elim (Bool-cases (i == n)) [
    | inl last ↦ let same : i ≡ n = ground arith in rw same set
    | inr earlier ↦ count_set_full n i bits (ground (arith, count_set_bound n bits)) (ground arith)
  ]
  | inr clear ↦ absurd (ground (arith, count_set_bound n bits))
]

count_set_all : (n : ℕ) (bits : ℕ → Bool) → ((i : ℕ) → i < n → bits i ≡ true) → count_set n bits ≡ n
count_set_all zero bits h = refl
count_set_all (suc n) bits h =
    ground (arith, h n (omega arith), count_set_all n bits (λ i l. h i (omega arith)))

-- A command waits for as many fragments as its bitmap has clear bits.
pub record IsTallied (c : IncomingCommand) : Type 0 where
  pub tally : c.fragments_remaining + count_set c.fragment_count (bitmap c) ≡ c.fragment_count
  pub small : c.fragment_count < 4294967296

abbrev pub or_stays :
    IncomingCommand × Memory → Option (IncomingCommand × Memory) → IncomingCommand × Memory
or_stays x none = x
or_stays x (some y) = y

-- A fragment with its bytes that arrives for a command, and fragments that arrive one after another:
-- the command and the memory after it.
abbrev pub arrive : SendFragment × Received → IncomingCommand × Memory → IncomingCommand × Memory
arrive (b, r) (c, m) = or_stays (c, m) (take_fragment b r c m)

abbrev pub arrive_all :
    List (SendFragment × Received) → IncomingCommand × Memory → IncomingCommand × Memory
arrive_all [] x = x
arrive_all (f ∷ rest) x = arrive_all rest (arrive f x)

abbrev pub is_among : ℕ → List (SendFragment × Received) → Bool
is_among i [] = false
is_among i ((b, r) ∷ rest) = i == b.fragment_number || is_among i rest

abbrev pub AllBelow : ℕ → List (SendFragment × Received) → Type 0
AllBelow n [] = Unit {0}
AllBelow n ((b, r) ∷ rest) = (b.fragment_number < n) × AllBelow n rest

tick_off-IsTallied :
    (i : ℕ) (c : IncomingCommand)
    → IsTallied c
    → bitmap c i ≡ false
    → i < c.fragment_count
    → IsTallied (tick_off i c)
unfolding tick_off
tick_off-IsTallied i c t clear l =
    let e = count_set-update c.fragment_count i (bitmap c) clear in
    let few = count_set_bound c.fragment_count (update (bitmap c) i true) in
    let old = t.tally in let lim = t.small in record { tally = ground arith; small = t.small }

or_swap : (x y z : Bool) → (x || (y || z)) ≡ ((y || x) || z)
or_swap true true z = refl
or_swap true false z = refl
or_swap false true z = refl
or_swap false false z = refl

or_stays-if :
    (t : Bool) (c d : IncomingCommand) (m n : Memory)
    → (or_stays (c, m) (if t then none else some (d, n))).0 ≡ (if t then c else d)
or_stays-if true c d m n = refl
or_stays-if false c d m n = refl

arrive_command :
    (b : SendFragment) (r : Received) (c : IncomingCommand) (m : Memory)
    → (arrive (b, r) (c, m)).0
      ≡ (if bitmap c b.fragment_number then c else tick_off b.fragment_number c)
unfolding take_fragment
arrive_command b r c m = or_stays-if (bitmap c b.fragment_number) c _ m _

arrive-IsTallied :
    (b : SendFragment) (r : Received) (c : IncomingCommand) (m : Memory)
    → IsTallied c
    → b.fragment_number < c.fragment_count
    → IsTallied (arrive (b, r) (c, m)).0
arrive-IsTallied b r c m t l =
    rw (arrive_command b r c m) (elim (Bool-cases (bitmap c b.fragment_number)) [
      | inl set ↦ rw set t
      | inr clear ↦ rw clear (tick_off-IsTallied b.fragment_number c t clear l)
    ])

arrive-count :
    (b : SendFragment) (r : Received) (c : IncomingCommand) (m : Memory)
    → (arrive (b, r) (c, m)).0.fragment_count ≡ c.fragment_count
unfolding tick_off
arrive-count b r c m = rw (arrive_command b r c m) (ground arith)

arrive-bitmap :
    (b : SendFragment) (r : Received) (j : ℕ) (c : IncomingCommand) (m : Memory)
    → bitmap (arrive (b, r) (c, m)).0 j ≡ (j == b.fragment_number || bitmap c j)
unfolding tick_off
arrive-bitmap b r j c m = rw (arrive_command b r c m) (ground arith)

arrive_all-IsTallied :
    (arrivals : List (SendFragment × Received)) (c : IncomingCommand) (m : Memory)
    → IsTallied c
    → AllBelow c.fragment_count arrivals
    → IsTallied (arrive_all arrivals (c, m)).0
arrive_all-IsTallied [] c m t below = t
arrive_all-IsTallied ((b, r) ∷ rest) c m t below =
    let x = arrive (b, r) (c, m) in
    arrive_all-IsTallied rest x.0 x.1 (arrive-IsTallied b r c m t below.0)
      (rw (arrive-count b r c m) below.1)

arrive_all-count :
    (arrivals : List (SendFragment × Received)) (c : IncomingCommand) (m : Memory)
    → (arrive_all arrivals (c, m)).0.fragment_count ≡ c.fragment_count
arrive_all-count [] c m = refl
arrive_all-count ((b, r) ∷ rest) c m =
    let x = arrive (b, r) (c, m) in arrive_all-count rest x.0 x.1 ∙ arrive-count b r c m

arrive_all-bitmap :
    (arrivals : List (SendFragment × Received)) (j : ℕ) (c : IncomingCommand) (m : Memory)
    → bitmap (arrive_all arrivals (c, m)).0 j ≡ (is_among j arrivals || bitmap c j)
arrive_all-bitmap [] j c m = refl
arrive_all-bitmap ((b, r) ∷ rest) j c m =
    let x = arrive (b, r) (c, m) in
    arrive_all-bitmap rest j x.0 x.1
    ∙ (ap (λ t. is_among j rest || t) (arrive-bitmap b r j c m)
        ∙ or_swap (is_among j rest) (j == b.fragment_number) (bitmap c j))

-- A command as it is queued for the first fragment of a packet.
abbrev pub awaiting : ℕ → Protocol → ℕ → ℕ → IncomingCommand
awaiting a command count packet = incoming a command count (some (λ _. false)) packet

no_bits : (n : ℕ) → count_set n (λ _. false) ≡ 0
no_bits zero = refl
no_bits (suc n) = omega (arith, no_bits n)

awaiting-IsTallied :
    (a : ℕ) (command : Protocol) (count packet : ℕ)
    → count < 4294967296
    → IsTallied (awaiting a command count packet)
unfolding incoming
awaiting-IsTallied a command count packet h = record {
  tally = omega (arith, no_bits count);
  small = h;
}

awaiting-bitmap :
    (a : ℕ) (command : Protocol) (count packet j : ℕ)
    → bitmap (awaiting a command count packet) j ≡ false
unfolding incoming
awaiting-bitmap a command count packet j = refl

awaiting-count :
    (a : ℕ) (command : Protocol) (count packet : ℕ)
    → (awaiting a command count packet).fragment_count ≡ count
unfolding incoming
awaiting-count a command count packet = refl

module _ (a : ℕ) (command : Protocol) (count packet : ℕ) (m : Memory)
    (arrivals : List (SendFragment × Received)) where
  -- The command after fragments have arrived, in any order, some of them perhaps more than once.
  abbrev pub arrived : IncomingCommand
  arrived = (arrive_all arrivals (awaiting a command count packet, m)).0

  arrived-IsTallied : count < 4294967296 → AllBelow count arrivals → IsTallied arrived
  arrived-IsTallied h b =
      arrive_all-IsTallied arrivals (awaiting a command count packet) m
        (awaiting-IsTallied a command count packet h) (rw (awaiting-count a command count packet) b)

  arrived-count : arrived.fragment_count ≡ count
  arrived-count =
      arrive_all-count arrivals (awaiting a command count packet) m
      ∙ awaiting-count a command count packet

  tally_of :
      count < 4294967296
      → AllBelow count arrivals
      → arrived.fragments_remaining + count_set count (bitmap arrived) ≡ count
  tally_of h b =
      subst (λ n. arrived.fragments_remaining + count_set n (bitmap arrived) ≡ n) arrived-count
        (arrived-IsTallied h b).tally

  arrived-bitmap : (j : ℕ) → bitmap arrived j ≡ is_among j arrivals
  arrived-bitmap j = ground (
    arith,
    arrive_all-bitmap arrivals j (awaiting a command count packet) m,
    awaiting-bitmap a command count packet j,
  )

  -- A command that waits for no more fragments has got every fragment of its packet: fragments that
  -- arrive in any order, also more than once, never complete it early.
  pub complete_needs_all :
      (i : ℕ)
      → count < 4294967296
      → AllBelow count arrivals
      → arrived.fragments_remaining ≡ 0
      → i < count
      → is_among i arrivals ≡ true
  complete_needs_all i h b e l =
      let t = tally_of h b in
      sym (arrived-bitmap i) ∙ count_set_full count i (bitmap arrived) (omega arith) l

  -- And it waits for none once they have all arrived.
  pub all_complete :
      count < 4294967296
      → AllBelow count arrivals
      → ((i : ℕ) → i < count → is_among i arrivals ≡ true)
      → arrived.fragments_remaining ≡ 0
  all_complete h b all =
      let t = tally_of h b in
      let full = count_set_all count (bitmap arrived) (λ i l. arrived-bitmap i ∙ all i l) in
      omega arith
