-- ===== src/Packet/Contents.antt =====
-- What resizing does to a packet's bytes (src/packet.c).
use enet_revamp.Base.{
  ℕ, ◌≡◌, ◌≢◌, ◌<◌, ◌≤◌, ◌⊎◌, ◌||◌, leb, inl, inr, none, some, Option, arith, true, false, bit,
  Bool-cases,
}
use enet_revamp.State.{Packet, Memory, flag_no_allocate}
use enet_revamp.Packet.{copied, malloc, resize}

-- Resizing a packet with contents fails only if it must grow, may allocate and memory is refused;
-- then all packets are as they were. Otherwise it has the new length and nothing else of it changes
-- but the contents, and every other packet is as it was. The bytes below the old length stay; those
-- behind it are not set, unless the packet keeps its buffer.
pub resize_lem :
    (a length b i j : ℕ) (m : Memory) (p : Packet) (bytes : ℕ → Option ℕ)
    → m.packets a ≡ some p
    → p.contents ≡ some bytes
    → b ≢ a
    → i < p.data_length
    → p.data_length ≤ j
    → ((resize a length m).0 ≡ false)
        × ((resize a length m).1.packets ≡ m.packets)
        × (p.data_length < length)
        × (bit flag_no_allocate p.flags ≡ false)
        × (m.grants m.requests ≡ false)
      ⊎ ((resize a length m).0 ≡ true)
        × ((resize a length m).1.packets b ≡ m.packets b)
        × ((contents : ℕ → Option ℕ) × ((resize a length m).1.packets a
              ≡ some (record p { contents = some contents; data_length = length }))
            × (contents i ≡ bytes i)
            × ((contents j ≡ none)
                ⊎ (contents j ≡ bytes j)
                  × ((length ≤ p.data_length) ⊎ (bit flag_no_allocate p.flags ≡ true))))
unfolding resize malloc copied
resize_lem a length b i j m p bytes e c ne l k =
    elim (Bool-cases (leb length p.data_length || bit flag_no_allocate p.flags)) [
      | inl keep ↦
          inr (ground arith, ground arith, (bytes, ground arith, ground arith, ground arith))
      | inr grow ↦ elim (Bool-cases (m.grants m.requests)) [
        | inl granted ↦ inr (
          ground arith,
          ground arith,
          (copied p.data_length p.contents, ground arith, ground arith, ground arith),
        )
        | inr refused ↦ inl (ground arith, ground arith, ground arith, ground arith, refused)
      ]
    ]
