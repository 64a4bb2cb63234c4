-- ===== src/Handle/Fragment/Pieces.antt =====
-- The fragments that enet_peer_send (src/peer.c) cuts a packet into, as pieces of the packet that are
-- told apart by their numbers.
use mathlib.Core.List.{Memᴰ}
use mathlib.Core.List.Memᴰ.{head, tail}
use enet_revamp.Base.{
  ℕ, ◌+◌, ◌≤◌, ◌<◌, ◌≡◌, ◌≢◌, ◌⊎◌, inl, inr, refl, sym, ap, ◌∙◌, Bool, true, ◌&&◌, leb, ltb, List,
  [], ◌∷◌, arith, Bool-cases,
}
use enet_revamp.Protocol.{Body}
use enet_revamp.State.{OutgoingCommand}
use enet_revamp.Peer.Send.{Plan, fragment}
use enet_revamp.Peer.Send.Fragments.{Tiles}

abbrev pub number_in : OutgoingCommand → ℕ
number_in o = elim o.command.body [ Body.send_fragment b ↦ b.fragment_number | _ ↦ 0 ]

abbrev pub covers : ℕ → OutgoingCommand → Bool
covers i o = leb o.fragment_offset i && ltb i (o.fragment_offset + o.fragment_length)

-- The fragments of a packet: each lies in it, and no other has its number.
pub record IsPiece (plan : Plan) (from : ℕ) (o : OutgoingCommand) : Type 0 where
  pub number : ℕ
  pub offset : ℕ
  pub len : ℕ
  pub piece : o ≡ fragment plan number offset len
  pub late : from ≤ number
  pub inside : offset + len ≤ plan.total_length
  pub small : len < 65536

number-fragment :
    (plan : Plan) (o : OutgoingCommand) (number offset len : ℕ)
    → o ≡ fragment plan number offset len
    → number_in o ≡ number
number-fragment plan o number offset len e = ap number_in e

Tiles-inside :
    (plan : Plan) (size number offset : ℕ) (fragments : List OutgoingCommand)
    → Tiles plan size number offset fragments
    → offset ≤ plan.total_length
Tiles-inside plan size number offset [] t = omega arith
Tiles-inside plan size number offset (o ∷ rest) (len, e, pos, le, whole, t) =
    omega (arith, Tiles-inside plan size (number + 1) (offset + len) rest t)

pub Tiles-IsPiece :
    (plan : Plan) (size number offset : ℕ) (o : OutgoingCommand) (fragments : List OutgoingCommand)
    → size < 65536
    → Tiles plan size number offset fragments
    → Memᴰ o fragments
    → IsPiece plan number o
Tiles-IsPiece plan size number offset o [] small t m = elim m [ ]
Tiles-IsPiece plan size number offset o (x ∷ rest) small (len, e, pos, le, whole, t) (head h) =
    record {
      number = number;
      offset = offset;
      len = len;
      piece = h ∙ e;
      late = omega arith;
      inside = Tiles-inside plan size (number + 1) (offset + len) rest t;
      small = omega arith;
    }
Tiles-IsPiece plan size number offset o (x ∷ rest) small (len, e, pos, le, whole, t) (tail m) =
    let p = Tiles-IsPiece plan size (number + 1) (offset + len) o rest small t m in
    record {
      number = p.number;
      offset = p.offset;
      len = p.len;
      piece = p.piece;
      late = (let l = p.late in omega arith);
      inside = p.inside;
      small = p.small;
    }

IsPiece-late :
    (plan : Plan) (from : ℕ) (o : OutgoingCommand) → IsPiece plan from o → from ≤ number_in o
IsPiece-late plan from o p =
    let l = p.late in omega (arith, number-fragment plan o p.number p.offset p.len p.piece)

-- Two fragments of a packet with the same number are the same.
pub Tiles-apart :
    (plan : Plan) (size number offset : ℕ) (x y : OutgoingCommand)
    (fragments : List OutgoingCommand)
    → size < 65536
    → Tiles plan size number offset fragments
    → Memᴰ x fragments
    → Memᴰ y fragments
    → (number_in x ≢ number_in y) ⊎ (x ≡ y)
Tiles-apart plan size number offset x y [] small t m n = elim m [ ]
Tiles-apart plan size number offset x y (o ∷ rest) small t (head e) (head f) = inr (e ∙ sym f)
Tiles-apart plan size number offset x y (o ∷ rest) small (len, g, pos, le, whole, t) (head e)
      (tail n) =
    inl (
      omega (
        arith,
        number-fragment plan x number offset len (e ∙ g),
        IsPiece-late plan (number + 1) y
            (Tiles-IsPiece plan size (number + 1) (offset + len) y rest small t n),
      ))
Tiles-apart plan size number offset x y (o ∷ rest) small (len, g, pos, le, whole, t) (tail m)
      (head f) =
    inl (
      omega (
        arith,
        number-fragment plan y number offset len (f ∙ g),
        IsPiece-late plan (number + 1) x
            (Tiles-IsPiece plan size (number + 1) (offset + len) x rest small t m),
      ))
Tiles-apart plan size number offset x y (o ∷ rest) small (len, g, pos, le, whole, t) (tail m)
      (tail n) =
    Tiles-apart plan size (number + 1) (offset + len) x y rest small t m n

fragment-covers :
    (plan : Plan) (number offset len i : ℕ)
    → len < 65536
    → offset ≤ i
    → i < offset + len
    → covers i (fragment plan number offset len) ≡ true
fragment-covers plan number offset len i small lo hi = ground arith

pub Tiles-covers :
    (plan : Plan) (size number offset i : ℕ) (fragments : List OutgoingCommand)
    → size < 65536
    → Tiles plan size number offset fragments
    → offset ≤ i
    → i < plan.total_length
    → (o : OutgoingCommand) × Memᴰ o fragments × (covers i o ≡ true)
Tiles-covers plan size number offset i [] small t lo hi = absurd (omega arith)
Tiles-covers plan size number offset i (o ∷ rest) small (len, e, pos, le, whole, t) lo hi =
    elim (Bool-cases (ltb i (offset + len))) [
      | inl here ↦ (
        o,
        head refl,
        rw e (fragment-covers plan number offset len i (omega arith) lo (ground arith)),
      )
      | inr later ↦
          let (x, m, c) =
            Tiles-covers plan size (number + 1) (offset + len) i rest small t (ground arith) hi in
          (x, tail m, c)
    ]
