-- ===== src/Handle/Fragment/Reassembly.antt =====
-- A packet that is cut into fragments by enet_peer_send (src/peer.c) and put together again by the
-- handlers of fragments (src/protocol.c) has the bytes it had.
use mathlib.Core.List.{Memᴰ}
use mathlib.Core.List.Memᴰ.{head, tail}
use enet_revamp.Base.{
  ℕ, ◌<◌, ◌≡◌, ◌≢◌, ◌⊎◌, inl, inr, refl, sym, ap, ◌∙◌, subst, true, false, if◌then◌else◌, Option,
  some, List, [], ◌∷◌, arith, Bool-cases, clash,
}
use enet_revamp.Protocol.{Protocol}
use enet_revamp.State.{OutgoingCommand, IncomingCommand, Memory, Packet}
use enet_revamp.Peer.Send.{Plan}
use enet_revamp.Peer.Send.Fragments.{Tiles}
use enet_revamp.Peer.Incoming.{incoming}
use enet_revamp.Handle.Fragment.{bitmap, tick_off}
use enet_revamp.Handle.Fragment.Bitmap.{awaiting}
use enet_revamp.Handle.Fragment.Pieces.{
  number_in, covers, IsPiece, Tiles-IsPiece, Tiles-apart, Tiles-covers,
}
use enet_revamp.Handle.Fragment.Delivery.{
  deliver, deliver_all, byte_at, HasBuffer, known_stays, new_result, new_byte, new_HasBuffer,
}

-- The state of a reassembly, looked at in the byte i: the command has its buffer, and the byte has
-- come if the bitmap has the fragment with the number `at`.
record IsPartly (source : ℕ → Option ℕ) (a total i at : ℕ) (x : IncomingCommand × Memory)
    : Type 0 where
  buffer : HasBuffer a total x.0 x.1
  byte : (bitmap x.0 at ≡ false) ⊎ (byte_at a i x.1 ≡ source i)

module _ (source after : ℕ → Option ℕ) (plan : Plan) (a i at : ℕ) (x : IncomingCommand × Memory)
    (o : OutgoingCommand) (p : IsPiece plan 0 o) (total : plan.total_length < 4294967296) where
  abbrev Stays : OutgoingCommand → Type 0
  Stays o =
      (deliver source after o x ≡ x) × (bitmap x.0 (number_in o) ≡ true)
      ⊎ (deliver source after o x).0 ≡ tick_off (number_in o) x.0
        × (byte_at a i (deliver source after o x).1
            ≡ (if covers i o then source i else byte_at a i x.1))
        × (bitmap x.0 (number_in o) ≡ false)
        × HasBuffer a plan.total_length (deliver source after o x).0 (deliver source after o x).1

  -- A fragment that arrives is known, and nothing happens, or it is new and its bytes are written.
  deliver_cases : HasBuffer a plan.total_length x.0 x.1 → Stays o
  deliver_cases b = subst Stays (sym p.piece) (elim (Bool-cases (bitmap x.0 p.number)) [
    | inl set ↦ inl (known_stays source after plan p.number p.offset p.len a x.0 x.1 set, set)
    | inr clear ↦ inr (
      ap (λ (y : IncomingCommand × Memory). y.0)
          (new_result source after plan p.number p.offset p.len a x.0 x.1 clear p.inside p.small
            total b),
      new_byte source after plan p.number p.offset p.len a x.0 x.1 i clear p.inside p.small total b,
      clear,
      new_HasBuffer source after plan p.number p.offset p.len a x.0 x.1 clear p.inside p.small total
          b,
    )
  ])

  tick_off-bitmap : (n : ℕ) → n ≢ at → bitmap x.0 at ≡ false → bitmap (tick_off n x.0) at ≡ false
  unfolding tick_off
  tick_off-bitmap n h e = ground arith

  deliver-IsPartly :
      IsPartly source a plan.total_length i at x
      → (number_in o ≢ at) ⊎ (covers i o ≡ true)
      → IsPartly source a plan.total_length i at (deliver source after o x)
  deliver-IsPartly s h = elim (deliver_cases s.buffer) [
    | inl (e, set) ↦ subst (IsPartly source a plan.total_length i at) (sym e) s
    | inr (new, byte, clear, buffer) ↦ record {
      buffer = buffer;
      byte = elim (Bool-cases (covers i o)) [
        | inl here ↦ inr (byte ∙ ap (λ t. if t then source i else byte_at a i x.1) here)
        | inr there ↦
            let same = byte ∙ ap (λ t. if t then source i else byte_at a i x.1) there in
            elim s.byte [
              | inl unset ↦ elim h [
                | inl other ↦
                    inl (ap (λ d. bitmap d at) new ∙ tick_off-bitmap (number_in o) other unset)
                | inr here ↦ absurd (clash (covers i o) here there)
              ]
              | inr done ↦ inr (same ∙ done)
            ]
      ];
    }
  ]

  deliver-done :
      HasBuffer a plan.total_length x.0 x.1
      → byte_at a i x.1 ≡ source i
      → HasBuffer a plan.total_length (deliver source after o x).0 (deliver source after o x).1
        × (byte_at a i (deliver source after o x).1 ≡ source i)
  deliver-done b done = elim (deliver_cases b) [
    | inl (e, set) ↦
        subst
          (λ (y : IncomingCommand × Memory).
            HasBuffer a plan.total_length y.0 y.1 × (byte_at a i y.1 ≡ source i))
          (sym e) (b, done)
    | inr (new, byte, clear, buffer) ↦ (
      buffer,
      elim (Bool-cases (covers i o)) [
        | inl here ↦ byte ∙ ap (λ t. if t then source i else byte_at a i x.1) here
        | inr there ↦ byte ∙ (ap (λ t. if t then source i else byte_at a i x.1) there ∙ done)
      ],
    )
  ]

  -- The fragment with the byte, whether it arrives for the first time or again.
  deliver-byte :
      IsPartly source a plan.total_length i (number_in o) x
      → covers i o ≡ true
      → HasBuffer a plan.total_length (deliver source after o x).0 (deliver source after o x).1
        × (byte_at a i (deliver source after o x).1 ≡ source i)
  deliver-byte s here = elim (deliver_cases s.buffer) [
    | inl (e, set) ↦ elim s.byte [
      | inl unset ↦ absurd (clash (bitmap x.0 (number_in o)) set unset)
      | inr done ↦ deliver-done s.buffer done
    ]
    | inr (new, byte, clear, buffer) ↦
        (buffer, byte ∙ ap (λ t. if t then source i else byte_at a i x.1) here)
  ]

module _ (source after : ℕ → Option ℕ) (plan : Plan) (size a i : ℕ)
    (fragments : List OutgoingCommand) (small : size < 65536)
    (total : plan.total_length < 4294967296) (tiles : Tiles plan size 0 0 fragments) where
  IsPiece-of : (o : OutgoingCommand) → Memᴰ o fragments → IsPiece plan 0 o
  IsPiece-of o m = Tiles-IsPiece plan size 0 0 o fragments small tiles m

  deliver_all-done :
      (arrivals : List OutgoingCommand) (x : IncomingCommand × Memory)
      → ((o : OutgoingCommand) → Memᴰ o arrivals → Memᴰ o fragments)
      → HasBuffer a plan.total_length x.0 x.1
      → byte_at a i x.1 ≡ source i
      → byte_at a i (deliver_all source after arrivals x).1 ≡ source i
  deliver_all-done [] x sound b done = done
  deliver_all-done (o ∷ rest) x sound b done =
      let d =
        deliver-done source after plan a i 0 x o (IsPiece-of o (sound o (head refl))) total b
          done in
      deliver_all-done rest (deliver source after o x) (λ y m. sound y (tail m)) d.0 d.1

  deliver_all-byte :
      (arrivals : List OutgoingCommand) (x : IncomingCommand × Memory) (o : OutgoingCommand)
      → ((y : OutgoingCommand) → Memᴰ y arrivals → Memᴰ y fragments)
      → Memᴰ o fragments
      → Memᴰ o arrivals
      → covers i o ≡ true
      → IsPartly source a plan.total_length i (number_in o) x
      → byte_at a i (deliver_all source after arrivals x).1 ≡ source i
  deliver_all-byte [] x o sound member m here s = elim m [ ]
  deliver_all-byte (y ∷ rest) x o sound member (head e) here s =
      let d =
        deliver-byte source after plan a i 0 x y (IsPiece-of y (sound y (head refl))) total
          (subst (λ z. IsPartly source a plan.total_length i (number_in z) x) e s)
          (subst (λ z. covers i z ≡ true) e here) in
      deliver_all-done rest (deliver source after y x) (λ z m. sound z (tail m)) d.0 d.1
  deliver_all-byte (y ∷ rest) x o sound member (tail m) here s =
      deliver_all-byte rest (deliver source after y x) o (λ z n. sound z (tail n)) member m here
        (deliver-IsPartly source after plan a i (number_in o) x y
          (IsPiece-of y (sound y (head refl))) total s
          (elim (Tiles-apart plan size 0 0 y o fragments small tiles (sound y (head refl)) member) [
            | inl other ↦ inl other
            | inr same ↦ inr (subst (λ z. covers i z ≡ true) (sym same) here)
          ]))

awaiting-IsPartly :
    (source : ℕ → Option ℕ) (address a count i at : ℕ) (command : Protocol) (m : Memory)
    (p : Packet) (contents : ℕ → Option ℕ)
    → m.packets a ≡ some p
    → p.contents ≡ some contents
    → IsPartly source a p.data_length i at (awaiting address command count a, m)
unfolding incoming
awaiting-IsPartly source address a count i at command m p contents e f = record {
  buffer = record {
    packet = p;
    contents = contents;
    here = refl;
    there = e;
    filled = f;
    whole = refl;
  };
  byte = inl refl;
}

-- A packet is cut as enet_peer_send does; the receiver waits for its fragments with a packet of the
-- full length in memory, whatever that holds. When fragments of this packet have arrived, in whatever
-- order, some of them perhaps more than once, and none is missing, the receiver's packet has each
-- byte of the sender's.
pub reassembled :
    (source after contents : ℕ → Option ℕ) (plan : Plan) (size i address a count : ℕ)
    (command : Protocol) (m : Memory) (p : Packet) (fragments arrivals : List OutgoingCommand)
    → size < 65536
    → plan.total_length < 4294967296
    → Tiles plan size 0 0 fragments
    → ((o : OutgoingCommand) → Memᴰ o arrivals → Memᴰ o fragments)
    → ((o : OutgoingCommand) → Memᴰ o fragments → Memᴰ o arrivals)
    → m.packets a ≡ some p
    → p.contents ≡ some contents
    → p.data_length ≡ plan.total_length
    → i < plan.total_length
    → byte_at a i (deliver_all source after arrivals (awaiting address command count a, m)).1
      ≡ source i
reassembled source after contents plan size i address a count command m p fragments arrivals small
      total tiles sound all e f whole lt =
    let (o, member, here) = Tiles-covers plan size 0 0 i fragments small tiles (omega arith) lt in
    let start = awaiting-IsPartly source address a count i (number_in o) command m p contents e f in
    deliver_all-byte source after plan size a i fragments small total tiles arrivals
      (awaiting address command count a, m) o sound member (all o member) here
      (subst (λ n. IsPartly source a n i (number_in o) (awaiting address command count a, m)) whole
        start)
