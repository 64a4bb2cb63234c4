-- ===== src/Packet/Checksum/Reference.antt =====
-- The checksum of src/packet.c against CRC-32 as it is defined: a register that is shifted bit by
-- bit.
use mathlib.Core.List.{reverse}
use Prim.Native.Nat.{bit_xor}
use enet_revamp.Base.{
  Bool-cases, subst, and_left, and_right, ℕ, zero, suc, ◌-◌, ◌*◌, ◌/◌, ◌%◌, ◌<◌, ◌≡◌, inl, inr,
  refl, sym, ap, ◌∙◌, Bool, true, false, ◌&&◌, ◌==◌, List, [], ◌∷◌, ◌++◌, arith, All, get_or,
  host_to_net_32, eq_of_==,
}
use enet_revamp.Packet.Checksum.{crc_table, add_byte, add_buffer, add_buffers, crc32}
use enet_revamp.Packet.Checksum.Xor.{bit_xor_assoc}
use enet_revamp.Packet.Checksum.Register.{
  shift, shifts, doubled_up, shifts-bit_xor, shifts-doubled_up, doubled_up-bit_xor,
  bit_xor-lt_doubled_up,
}

-- The bytes enter at the low end, and eight bits leave for each.
unfoldable pub register : ℕ → List ℕ → ℕ
unfolding shifts
register x [] = x
register x (byte ∷ rest) = register (shifts 8 (bit_xor x byte)) rest

abbrev pub reference : List ℕ → ℕ
reference bytes = 0xFFFFFFFF - register 0xFFFFFFFF bytes

abbrev pub joined : List (List ℕ) → List ℕ
joined [] = []
joined (buffer ∷ buffers) = buffer ++ joined buffers

-- The table holds what eight shifts make of each byte.
agrees_below : ℕ → Bool
agrees_below zero = true
agrees_below (suc n) = agrees_below n && get_or crc_table n 0 == shifts 8 n

agrees : agrees_below 256 ≡ true
unfolding agrees_below shifts shift
agrees = refl

below_of_ne : (i n : ℕ) → i < suc n → (i == n) ≡ false → i < n
below_of_ne i n l e = ground arith

register_none : (x : ℕ) → x ≡ register x []
unfolding register
register_none x = refl

agrees_at : (n i : ℕ) → agrees_below n ≡ true → i < n → get_or crc_table i 0 ≡ shifts 8 i
unfolding agrees_below
agrees_at zero i h l = absurd (omega (arith, l))
agrees_at (suc n) i h l = elim (Bool-cases (i == n)) [
  | inl e ↦
      subst (λ m. get_or crc_table m 0 ≡ shifts 8 m) (sym (eq_of_== i n e))
        (eq_of_== (get_or crc_table n 0) (shifts 8 n)
          (and_right (agrees_below n) (get_or crc_table n 0 == shifts 8 n) h))
  | inr e ↦
      agrees_at n i (and_left (agrees_below n) (get_or crc_table n 0 == shifts 8 n) h)
        (below_of_ne i n l e)
]

byte_up : (x : ℕ) → doubled_up 8 x ≡ x * 256
unfolding doubled_up
byte_up x = omega arith

in_two : (crc : ℕ) → crc ≡ bit_xor (doubled_up 8 (crc / 256)) (crc % 256)
in_two crc =
    let whole = doubled_up-bit_xor 8 (crc / 256) (crc % 256) (omega (arith, byte_up 1)) in
    omega (arith, whole, byte_up (crc / 256))

add_byte-shifts : (crc byte : ℕ) → byte < 256 → add_byte crc byte ≡ shifts 8 (bit_xor crc byte)
unfolding add_byte
add_byte-shifts crc byte h =
    let high = crc / 256 in
    let low = bit_xor (crc % 256) byte in
    let small : low < 256 = omega (
      arith,
      byte_up 1,
      bit_xor-lt_doubled_up 8 (crc % 256) byte (omega (arith, byte_up 1))
          (omega (arith, byte_up 1, h)),
    ) in
    ap (bit_xor high) (agrees_at 256 low agrees small)
    ∙ (ap (λ x. bit_xor x (shifts 8 low)) (sym (shifts-doubled_up 8 high))
        ∙ (sym (shifts-bit_xor 8 (doubled_up 8 high) low)
            ∙ ap (shifts 8) (
                sym (bit_xor_assoc (doubled_up 8 high) (crc % 256) byte)
                ∙ ap (λ x. bit_xor x byte) (sym (in_two crc)))))

abbrev pub IsByte : ℕ → Type 0
IsByte n = n < 256

add_buffer-register :
    (crc : ℕ) (bytes : List ℕ) → All IsByte bytes → add_buffer crc bytes ≡ register crc bytes
unfolding add_buffer register
add_buffer-register crc [] h = refl
add_buffer-register crc (byte ∷ rest) h =
    add_buffer-register (add_byte crc byte) rest h.1
    ∙ ap (λ x. register x rest) (add_byte-shifts crc byte h.0)

register-append :
    (x : ℕ) (front back : List ℕ) → register x (front ++ back) ≡ register (register x front) back
unfolding register
register-append x [] back = refl
register-append x (byte ∷ front) back = register-append (shifts 8 (bit_xor x byte)) front back

add_buffers-register :
    (crc : ℕ) (buffers : List (List ℕ))
    → All (All IsByte) buffers
    → add_buffers crc buffers ≡ register crc (joined buffers)
unfolding add_buffers
add_buffers-register crc [] h = register_none crc
add_buffers-register crc (buffer ∷ buffers) h =
    add_buffers-register (add_buffer crc buffer) buffers h.1
    ∙ (ap (λ x. register x (joined buffers)) (add_buffer-register crc buffer h.0)
        ∙ sym (register-append crc buffer (joined buffers)))

-- The four bytes of a number, the lowest first: as it lies in memory.
abbrev pub bytes_of : ℕ → List ℕ
bytes_of x = x % 256 ∷ x / 256 % 256 ∷ x / 65536 % 256 ∷ x / 16777216 % 256 ∷ []

bytes_of-host_to_net_32 : (x : ℕ) → bytes_of (host_to_net_32 x) ≡ reverse (bytes_of x)
bytes_of-host_to_net_32 x = ground arith

-- The checksum, which looks up a table for each byte of each buffer, lies in memory with the bytes
-- of CRC-32 in network order, the highest first: CRC-32 of the bytes of all buffers in their order,
-- computed bit by bit.
pub crc32-reference :
    (buffers : List (List ℕ))
    → All (All IsByte) buffers
    → bytes_of (crc32 buffers) ≡ reverse (bytes_of (reference (joined buffers)))
unfolding crc32
crc32-reference buffers h =
    bytes_of-host_to_net_32 (0xFFFFFFFF - add_buffers 0xFFFFFFFF buffers)
    ∙ ap (λ x. reverse (bytes_of (0xFFFFFFFF - x))) (add_buffers-register 0xFFFFFFFF buffers h)
