-- ===== src/Examples/Packets.antt =====
-- Examples of the clock and of packets.
use mathlib.Core.List.{reverse}
use enet_revamp.Packet.Checksum.{crc32}
use enet_revamp.Packet.Checksum.Reference.{reference, bytes_of, crc32-reference}
use enet_revamp.Base.{
  ℕ, ◌≡◌, ◌≤◌, ◌<◌, ◌⊎◌, refl, true, false, arith, Option, none, some, bit, [], ◌∷◌,
}
use enet_revamp.State.{Packet}
use enet_revamp.Packet.{new_packet, resize}
use enet_revamp.Packet.Contents.{resize_lem}
use enet_revamp.Examples.Data.{memory_of, stored}

abbrev shared : Packet
shared = record (new_packet 1 (some (λ j. some j)) 5) { reference_count = 3 }

resize_lem_example :
    ((resize 1 9 (memory_of stored)).0 ≡ false)
      × ((resize 1 9 (memory_of stored)).1.packets ≡ stored)
      × (5 < 9)
      × (bit 2 1 ≡ false)
      × (true ≡ false)
    ⊎ ((resize 1 9 (memory_of stored)).0 ≡ true)
      × ((resize 1 9 (memory_of stored)).1.packets 2 ≡ stored 2)
      × ((contents : ℕ → Option ℕ) × ((resize 1 9 (memory_of stored)).1.packets 1
            ≡ some (record shared { contents = some contents; data_length = 9 }))
          × (contents 4 ≡ some 4)
          × ((contents 6 ≡ none) ⊎ (contents 6 ≡ some 6) × ((9 ≤ 5) ⊎ (bit 2 1 ≡ true))))
resize_lem_example =
    resize_lem 1 9 2 4 6 (memory_of stored) shared (λ j. some j) refl refl (omega arith)
      (omega arith) (omega arith)

-- The checksum of the bytes "123" in two buffers.
crc32-reference_example :
    bytes_of (crc32 ((49 ∷ 50 ∷ []) ∷ (51 ∷ []) ∷ []))
    ≡ reverse (bytes_of (reference (49 ∷ 50 ∷ 51 ∷ [])))
crc32-reference_example =
    crc32-reference ((49 ∷ 50 ∷ []) ∷ (51 ∷ []) ∷ [])
      ((omega arith, (omega arith, tt)), ((omega arith, tt), tt))
