-- ===== src/Peer/Send/Fragments.antt =====
-- The fragments of a packet (enet_peer_send of src/peer.c) cover it exactly.
use enet_revamp.Base.{
  ℕ, zero, suc, ◌+◌, ◌-◌, ◌*◌, ◌/◌, ◌<◌, ◌≤◌, ◌≡◌, refl, ap, ◌∙◌, true, ltb, if◌then◌else◌, Option,
  some, List, [], ◌∷◌, length, arith, u32, sub64, Bool-cases, ◌⊎◌, inl, inr, ltb_of_lt,
}
use enet_revamp.Protocol.{maximum_fragment_count}
use enet_revamp.State.{Memory, OutgoingCommand, Packet, Session, connected}
use enet_revamp.Packet.{malloc, retain}
use enet_revamp.Session.{memory, with_memory}
use enet_revamp.Peer.Send.{
  Plan, fragment, cut, prepend, plan_fragments, payload_size, setup_all, send, send_packet,
  send_fragments, finish_fragments,
}

-- The fragments, numbered from `number`, follow one another from `offset` to the end of the packet;
-- each carries at least one byte and at most `size`, and all but the last carry `size`.
abbrev pub Tiles : Plan → ℕ → ℕ → ℕ → List OutgoingCommand → Type 0
Tiles plan size number offset [] = offset ≡ plan.total_length
Tiles plan size number offset (o ∷ rest) =
    (len : ℕ) × (o ≡ fragment plan number offset len)
    × (0 < len)
    × (len ≤ size)
    × ((len ≡ size) ⊎ (offset + len ≡ plan.total_length))
    × Tiles plan size (number + 1) (offset + len) rest

-- Every request for memory from the n-th on is granted.
abbrev pub Plenty : Memory → Type 0
Plenty m = (n : ℕ) → m.grants n ≡ true

malloc-Plenty :
    (m : Memory)
    → Plenty m
    → ((malloc m).0 ≡ some m.requests) × ((malloc m).1 ≡ record m { requests = m.requests + 1 })
unfolding malloc
malloc-Plenty m h = ground (arith, h m.requests)

cut_done :
    (fuel : ℕ) (plan : Plan) (number offset size : ℕ) (m : Memory)
    → 0 < fuel
    → offset ≡ plan.total_length
    → cut fuel plan number offset size m ≡ (some [], m)
unfolding cut
cut_done zero plan number offset size m z e = absurd (omega arith)
cut_done (suc fuel) plan number offset size m z e = ground arith

abbrev piece : Plan → ℕ → ℕ → ℕ
piece plan offset size =
    if ltb (plan.total_length - offset) size then plan.total_length - offset else size

cut_step :
    (fuel : ℕ) (plan : Plan) (number offset size : ℕ) (m : Memory)
    → Plenty m
    → offset < plan.total_length
    → plan.total_length < 4294967296
    → number + 1 < 4294967296
    → cut (suc fuel) plan number offset size m
      ≡ prepend (fragment plan number offset (piece plan offset size)) (
          cut fuel plan
            (number + 1)
            (offset + piece plan offset size)
            (piece plan offset size)
            (record m { requests = m.requests + 1 }))
unfolding cut
cut_step fuel plan number offset size m h lt small count =
    let left : sub64 plan.total_length offset ≡ plan.total_length - offset = omega arith in
    let next : u32 (number + 1) ≡ number + 1 = omega arith in
    let there : u32 (offset + piece plan offset size) ≡ offset + piece plan offset size =
      ground arith in
    rw ((malloc-Plenty m h).0, left, next, ltb_of_lt _ _ lt, there, (malloc-Plenty m h).1)

abbrev Cut : Memory → Plan → ℕ → ℕ → ℕ → Option (List OutgoingCommand) × Memory → Type 0
Cut m plan size number offset result =
    (fragments : List OutgoingCommand) × (m' : Memory) × (result ≡ (some fragments, m'))
    × Tiles plan size number offset fragments
    × (m'.packets ≡ m.packets)

cut-Cut :
    (fuel : ℕ) (plan : Plan) (number offset size : ℕ) (m : Memory)
    → Plenty m
    → 0 < size
    → offset ≤ plan.total_length
    → plan.total_length < 4294967296
    → plan.total_length - offset < fuel
    → number + (plan.total_length - offset) < 4294967296
    → Cut m plan size number offset (cut fuel plan number offset size m)
unfolding prepend
cut-Cut zero plan number offset size m h z le small enough count = absurd (omega arith)
cut-Cut (suc fuel) plan number offset size m h z le small enough count =
    elim (Bool-cases (ltb offset plan.total_length)) [
      | inl more ↦
          let m' = record m { requests = m.requests + 1 } in
          let step =
            cut_step fuel plan number offset size m h (ground arith) small (ground arith) in
          elim (Bool-cases (ltb (plan.total_length - offset) size)) [
            | inl short ↦
                let left = plan.total_length - offset in
                let len : piece plan offset size ≡ left = rw short in
                let done =
                  cut_done fuel plan (number + 1) (offset + left) left m' (ground arith)
                    (ground arith) in
                (
                  fragment plan number offset left ∷ [],
                  m',
                  rw len at step ∙ ap (prepend (fragment plan number offset left)) done,
                  (left, refl, ground arith, ground arith, inr (ground arith), ground arith),
                  refl,
                )
            | inr full ↦
                let len : piece plan offset size ≡ size = rw full in
                let (rest, m'', e, t, same) =
                  cut-Cut fuel plan (number + 1) (offset + size) size m' h z (ground arith) small
                    (ground arith) (ground arith) in
                (
                  fragment plan number offset size ∷ rest,
                  m'',
                  rw len at step ∙ ap (prepend (fragment plan number offset size)) e,
                  (size, refl, z, ground arith, inl refl, t),
                  same,
                )
          ]
      | inr over ↦ (
        [],
        m,
        cut_done (suc fuel) plan number offset size m (ground arith) (ground arith),
        ground arith,
        refl,
      )
    ]

module _ (plan : Plan) (size : ℕ) where
  Tiles-le :
      (number offset : ℕ) (fragments : List OutgoingCommand)
      → Tiles plan size number offset fragments
      → offset ≤ plan.total_length
  Tiles-le number offset [] t = omega arith
  Tiles-le number offset (o ∷ rest) (len, e, pos, le, full, t) =
      omega (arith, Tiles-le (number + 1) (offset + len) rest t)

  Tiles-end :
      (number offset : ℕ) (fragments : List OutgoingCommand)
      → Tiles plan size number offset fragments
      → offset ≡ plan.total_length
      → length fragments ≡ 0
  Tiles-end number offset [] t e = refl
  Tiles-end number offset (o ∷ rest) (len, _, pos, le, full, t) e =
      absurd (omega (arith, Tiles-le (number + 1) (offset + len) rest t))

  -- The number of pieces of a tiling: one fewer would not reach the end of the packet.
  Tiles-length :
      (number offset : ℕ) (fragments : List OutgoingCommand)
      → Tiles plan size number offset fragments
      → offset < plan.total_length
      → (plan.total_length ≤ offset + length fragments * size)
        × (offset + length fragments * size < plan.total_length + size)
  Tiles-length number offset [] t lt = absurd (omega arith)
  Tiles-length number offset (o ∷ rest) (len, e, pos, le, inr last, t) lt =
      let none_left = Tiles-end (number + 1) (offset + len) rest t last in
      rw none_left (ground arith, ground arith)
  Tiles-length number offset (o ∷ rest) (len, e, pos, le, inl full, t) lt =
      elim (Bool-cases (ltb (offset + len) plan.total_length)) [
        | inl more ↦
            let (a, b) = Tiles-length (number + 1) (offset + len) rest t (ground arith) in
            (omega arith, omega arith)
        | inr over ↦
            let last : offset + len ≡ plan.total_length =
              ground (arith, Tiles-le (number + 1) (offset + len) rest t) in
            rw (Tiles-end (number + 1) (offset + len) rest t last) (ground arith, ground arith)
      ]

count_unique :
    (n total size : ℕ)
    → 0 < size
    → total ≤ n * size
    → n * size < total + size
    → (total + size - 1) / size ≡ n
count_unique n total size z lo hi = grind arith

count-le : (n total size : ℕ) → 0 < size → 0 < total → n * size < total + size → n ≤ total
count-le zero total size z pos hi = omega arith
count-le (suc n) total size z pos hi =
    let below : n * size < total = omega arith in
    let grows : n ≤ n * size = grind arith in omega arith

small_count : (x n : ℕ) → x ≡ n → n < 4294967296 → n ≡ u32 x
small_count x n e h = omega arith

-- The plan that enet_peer_send makes for a packet, and the datagram payload that it cuts by.
module _ (s : Session) (k a : ℕ) (p : Packet) where
  abbrev pub plan_of : Plan
  plan_of = plan_fragments s k a p (payload_size s)

  -- When a connected peer sends a packet that does not fit into one datagram, on an open channel,
  -- within the size limit of the host, in no more fragments than the protocol allows and with
  -- memory to spare, the send succeeds: the fragments, queued in order, follow one another without
  -- gap or overlap from the first byte to the last, there are as many as each of them announces,
  -- and the packet gains one reference for each.
  pub send-Tiles :
      (memory s).packets a ≡ some p
      → s.peer.state ≡ connected
      → k < s.peer.channel_count
      → p.data_length ≤ s.host.maximum_packet_size
      → p.data_length < 4294967296
      → 0 < payload_size s
      → payload_size s < p.data_length
      → plan_of.fragment_count ≤ maximum_fragment_count
      → Plenty (memory s)
      → (fragments : List OutgoingCommand) × (m : Memory) × (send s k a
          ≡ (true, setup_all (with_memory s (retain (length fragments) a m)) fragments))
        × (m.packets ≡ (memory s).packets)
        × Tiles plan_of (payload_size s) 0 0 fragments
        × (length fragments ≡ plan_of.fragment_count)
  unfolding send send_packet send_fragments finish_fragments plan_fragments
  send-Tiles live state opened size small pos large count plenty =
      let (fragments, m, e, t, same) =
        cut-Cut (suc p.data_length) plan_of 0 0 (payload_size s) (memory s) plenty pos
          (ground arith) small (ground arith) (ground arith) in
      let (lo, hi) = Tiles-length plan_of (payload_size s) 0 0 fragments t (ground arith) in
      let n =
        count_unique (length fragments) p.data_length (payload_size s) pos (ground arith)
          (ground arith) in
      let few =
        count-le (length fragments) p.data_length (payload_size s) pos (ground arith)
          (ground arith) in
      (fragments, m, ground (arith, e), same, t, small_count _ _ n (omega arith))
