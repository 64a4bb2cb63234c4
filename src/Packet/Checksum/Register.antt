-- ===== src/Packet/Checksum/Register.antt =====
-- The shift register that CRC-32 is defined by, for the checksum of src/packet.c.
use Prim.Native.Nat.{bit_xor}
use enet_revamp.Base.{
  ℕ, zero, suc, ◌+◌, ◌*◌, ◌/◌, ◌%◌, ◌<◌, ◌≡◌, ◌⊎◌, inl, inr, refl, sym, ap, ◌∙◌, ◌==◌,
  if◌then◌else◌, arith,
}
use enet_revamp.Packet.Checksum.Xor.{
  bit_xor-zero, bit_xor_half, bit_xor_parity, bit_xor_comm, bit_xor_assoc, bit_xor_double,
  bit_xor_bound,
}

-- The polynomial of CRC-32, lowest power first in the highest bit.
abbrev pub polynomial : ℕ
polynomial = 0xEDB88320

-- One bit leaves the register; a one brings the polynomial in.
unfoldable pub shift : ℕ → ℕ
shift x = if x % 2 == 1 then bit_xor (x / 2) polynomial else x / 2

unfoldable pub shifts : ℕ → ℕ → ℕ
unfolding shift
shifts zero x = x
shifts (suc k) x = shifts k (shift x)

shift_even : (x : ℕ) → x % 2 ≡ 0 → shift x ≡ x / 2
unfolding shift
shift_even x h = ground (arith, h)

shift_odd : (x : ℕ) → x % 2 ≡ 1 → shift x ≡ bit_xor (x / 2) polynomial
unfolding shift
shift_odd x h = ground (arith, h)

parity : (x : ℕ) → (x % 2 ≡ 0) ⊎ (x % 2 ≡ 1)
parity x = ground arith

-- The polynomial moves through an exclusive or, and two of them cancel.
move_left : (a b : ℕ) → bit_xor (bit_xor a b) polynomial ≡ bit_xor (bit_xor a polynomial) b
move_left a b =
    bit_xor_assoc a b polynomial
    ∙ (ap (bit_xor a) (bit_xor_comm b polynomial) ∙ sym (bit_xor_assoc a polynomial b))

cancel : (a b : ℕ) → bit_xor a b ≡ bit_xor (bit_xor a polynomial) (bit_xor b polynomial)
cancel a b =
    ap (λ x. bit_xor x b) (sym (bit_xor-zero a))
    ∙ (ap (λ x. bit_xor x b) (sym (bit_xor_assoc a polynomial polynomial))
        ∙ (bit_xor_assoc (bit_xor a polynomial) polynomial b
            ∙ ap (bit_xor (bit_xor a polynomial)) (bit_xor_comm polynomial b)))

shift-bit_xor : (a b : ℕ) → shift (bit_xor a b) ≡ bit_xor (shift a) (shift b)
shift-bit_xor a b = elim (parity a) [
  | inl e ↦ elim (parity b) [
    | inl f ↦
        shift_even (bit_xor a b) (omega (arith, e, f, bit_xor_parity a b))
        ∙ (bit_xor_half a b ∙ rw (shift_even a e, shift_even b f) refl)
    | inr f ↦
        shift_odd (bit_xor a b) (omega (arith, e, f, bit_xor_parity a b))
        ∙ (ap (λ x. bit_xor x polynomial) (bit_xor_half a b)
            ∙ (bit_xor_assoc (a / 2) (b / 2) polynomial ∙ rw (shift_even a e, shift_odd b f) refl))
  ]
  | inr e ↦ elim (parity b) [
    | inl f ↦
        shift_odd (bit_xor a b) (omega (arith, e, f, bit_xor_parity a b))
        ∙ (ap (λ x. bit_xor x polynomial) (bit_xor_half a b)
            ∙ (move_left (a / 2) (b / 2) ∙ rw (shift_odd a e, shift_even b f) refl))
    | inr f ↦
        shift_even (bit_xor a b) (omega (arith, e, f, bit_xor_parity a b))
        ∙ (bit_xor_half a b ∙ (cancel (a / 2) (b / 2) ∙ rw (shift_odd a e, shift_odd b f) refl))
  ]
]

pub shifts-bit_xor : (k a b : ℕ) → shifts k (bit_xor a b) ≡ bit_xor (shifts k a) (shifts k b)
unfolding shifts
shifts-bit_xor zero a b = refl
shifts-bit_xor (suc k) a b =
    ap (shifts k) (shift-bit_xor a b) ∙ shifts-bit_xor k (shift a) (shift b)

-- A register whose low byte is empty moves down by a byte.
shift_double : (x : ℕ) → shift (x * 2) ≡ x
shift_double x = shift_even (x * 2) (omega arith) ∙ omega arith

unfoldable pub doubled_up : ℕ → ℕ → ℕ
doubled_up zero x = x
doubled_up (suc k) x = doubled_up k x * 2

pub shifts-doubled_up : (k x : ℕ) → shifts k (doubled_up k x) ≡ x
unfolding shifts doubled_up
shifts-doubled_up zero x = refl
shifts-doubled_up (suc k) x = ap (shifts k) (shift_double (doubled_up k x)) ∙ shifts-doubled_up k x

-- A number below 2^k fits below another one that is moved up by k.
pub doubled_up-bit_xor :
    (k x l : ℕ) → l < doubled_up k 1 → bit_xor (doubled_up k x) l ≡ doubled_up k x + l
unfolding doubled_up
doubled_up-bit_xor zero x l h =
    ap (bit_xor x) (omega (arith, h)) ∙ (bit_xor-zero x ∙ omega (arith, h))
doubled_up-bit_xor (suc k) x l h =
    bit_xor_double (doubled_up k x) (doubled_up k 1) (doubled_up-bit_xor k x) l h

pub bit_xor-lt_doubled_up :
    (k a b : ℕ) → a < doubled_up k 1 → b < doubled_up k 1 → bit_xor a b < doubled_up k 1
unfolding doubled_up
bit_xor-lt_doubled_up zero zero zero h g = omega arith
bit_xor-lt_doubled_up zero (suc a) b h g = absurd (omega (arith, h))
bit_xor-lt_doubled_up zero zero (suc b) h g = absurd (omega (arith, g))
bit_xor-lt_doubled_up (suc k) a b h g =
    bit_xor_bound (doubled_up k 1) (bit_xor-lt_doubled_up k) a b h g
