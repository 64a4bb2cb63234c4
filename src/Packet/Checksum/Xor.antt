-- ===== src/Packet/Checksum/Xor.antt =====
-- Laws of the exclusive or of natural numbers, which the checksum of src/packet.c is built from.
use Prim.Native.Nat.{bit_xor, digits, differ, bit_xor-bitwise}
use enet_revamp.Base.{ℕ, zero, suc, ◌+◌, ◌*◌, ◌/◌, ◌%◌, ◌≤◌, ◌<◌, ◌≡◌, refl, sym, ap, ◌∙◌, arith}

differ_digits : (x y : ℕ) → x < 2 → y < 2 → differ x y ≡ (x + y) % 2
differ_digits zero zero h g = refl
differ_digits zero (suc zero) h g = refl
differ_digits zero (suc (suc y)) h g = absurd (omega (arith, g))
differ_digits (suc zero) zero h g = refl
differ_digits (suc zero) (suc zero) h g = refl
differ_digits (suc zero) (suc (suc y)) h g = absurd (omega (arith, g))
differ_digits (suc (suc x)) y h g = absurd (omega (arith, h))

pub zero-bit_xor : (b : ℕ) → bit_xor 0 b ≡ b
zero-bit_xor b = bit_xor-bitwise 0 b

-- The digits of the definition, with any number of rounds that is not too small.
abbrev xor_rounds : ℕ → ℕ → ℕ → ℕ
xor_rounds = digits (λ rest. rest) differ

xor_rounds-same :
    (a b fuel more : ℕ) → a ≤ fuel → a ≤ more → xor_rounds fuel a b ≡ xor_rounds more a b
xor_rounds-same zero b zero zero h g = refl
xor_rounds-same zero b zero (suc more) h g = refl
xor_rounds-same zero b (suc fuel) zero h g = refl
xor_rounds-same zero b (suc fuel) (suc more) h g = refl
xor_rounds-same (suc a) b zero more h g = absurd (omega (arith, h))
xor_rounds-same (suc a) b (suc fuel) zero h g = absurd (omega (arith, g))
xor_rounds-same (suc a) b (suc fuel) (suc more) h g =
    ap (λ q. q * 2 + differ (suc a % 2) (b % 2))
      (xor_rounds-same (suc a / 2) (b / 2) fuel more (omega (arith, h)) (omega (arith, g)))

-- The lowest digit, and the others.
xor_lowest : (a b : ℕ) → bit_xor a b ≡ bit_xor (a / 2) (b / 2) * 2 + (a + b) % 2
xor_lowest zero b =
    let whole = zero-bit_xor b in let half = zero-bit_xor (b / 2) in omega (arith, whole, half)
xor_lowest (suc a) b =
    let low = differ_digits (suc a % 2) (b % 2) (omega arith) (omega arith) in
    let high =
      xor_rounds-same (suc a / 2) (b / 2) a (suc a / 2) (omega arith) (omega arith)
      ∙ sym (bit_xor-bitwise (suc a / 2) (b / 2)) in
    bit_xor-bitwise (suc a) b
    ∙ (ap (λ q. q * 2 + differ (suc a % 2) (b % 2)) high ∙ omega (arith, low))

pub bit_xor_half : (a b : ℕ) → bit_xor a b / 2 ≡ bit_xor (a / 2) (b / 2)
bit_xor_half a b = omega (arith, xor_lowest a b)

pub bit_xor_parity : (a b : ℕ) → bit_xor a b % 2 ≡ (a + b) % 2
bit_xor_parity a b = omega (arith, xor_lowest a b)

same_digits : (x y : ℕ) → x / 2 ≡ y / 2 → x % 2 ≡ y % 2 → x ≡ y
same_digits x y h g = omega (arith, h, g)

comm_fuel : (n a b : ℕ) → a ≤ n → b ≤ n → bit_xor a b ≡ bit_xor b a
comm_fuel zero zero zero h g = refl
comm_fuel zero (suc a) b h g = absurd (omega (arith, h))
comm_fuel zero zero (suc b) h g = absurd (omega (arith, g))
comm_fuel (suc n) a b h g =
    same_digits (bit_xor a b) (bit_xor b a)
      (bit_xor_half a b
        ∙ (comm_fuel n (a / 2) (b / 2) (omega (arith, h)) (omega (arith, g))
            ∙ sym (bit_xor_half b a)))
      (omega (arith, bit_xor_parity a b, bit_xor_parity b a))

pub bit_xor_comm : (a b : ℕ) → bit_xor a b ≡ bit_xor b a
bit_xor_comm a b = comm_fuel (a + b) a b (omega arith) (omega arith)

assoc_fuel :
    (n a b c : ℕ) → a ≤ n → b ≤ n → c ≤ n → bit_xor (bit_xor a b) c ≡ bit_xor a (bit_xor b c)
assoc_fuel zero zero zero zero h g k = refl
assoc_fuel zero (suc a) b c h g k = absurd (omega (arith, h))
assoc_fuel zero zero (suc b) c h g k = absurd (omega (arith, g))
assoc_fuel zero zero zero (suc c) h g k = absurd (omega (arith, k))
assoc_fuel (suc n) a b c h g k =
    same_digits (bit_xor (bit_xor a b) c) (bit_xor a (bit_xor b c))
      (bit_xor_half (bit_xor a b) c
        ∙ (ap (λ x. bit_xor x (c / 2)) (bit_xor_half a b)
            ∙ (assoc_fuel n (a / 2) (b / 2) (c / 2) (omega (arith, h)) (omega (arith, g))
                  (omega (arith, k))
                ∙ (ap (bit_xor (a / 2)) (sym (bit_xor_half b c))
                    ∙ sym (bit_xor_half a (bit_xor b c))))))
      (omega (
        arith,
        bit_xor_parity (bit_xor a b) c,
        bit_xor_parity a b,
        bit_xor_parity a (bit_xor b c),
        bit_xor_parity b c,
      ))

pub bit_xor_assoc : (a b c : ℕ) → bit_xor (bit_xor a b) c ≡ bit_xor a (bit_xor b c)
bit_xor_assoc a b c = assoc_fuel (a + b + c) a b c (omega arith) (omega arith) (omega arith)

-- One digit more below numbers without common digits.
pub bit_xor_double :
    (q p : ℕ)
    → ((l : ℕ) → l < p → bit_xor q l ≡ q + l)
    → (l : ℕ) → l < p * 2
    → bit_xor (q * 2) l ≡ q * 2 + l
bit_xor_double q p below l h =
    same_digits (bit_xor (q * 2) l) (q * 2 + l)
      (bit_xor_half (q * 2) l
        ∙ (ap (λ x. bit_xor x (l / 2)) (omega arith)
            ∙ (below (l / 2) (omega (arith, h)) ∙ omega arith)))
      (bit_xor_parity (q * 2) l)

pub bit_xor-zero : (a : ℕ) → bit_xor a 0 ≡ a
bit_xor-zero a = bit_xor_comm a 0 ∙ zero-bit_xor a

-- Numbers below twice a bound.
pub bit_xor_bound :
    (p : ℕ)
    → ((a b : ℕ) → a < p → b < p → bit_xor a b < p)
    → (a b : ℕ) → a < p * 2
    → b < p * 2
    → bit_xor a b < p * 2
bit_xor_bound p below a b h g =
    let half = bit_xor_half a b in
    let bound = below (a / 2) (b / 2) (omega (arith, h)) (omega (arith, g)) in
    omega (arith, half, bound)
