-- ===== src/Handle/Fragment/Delivery.antt =====
-- Fragments that were sent by enet_peer_send (src/peer.c) arrive at the handlers of fragments
-- (src/protocol.c): what one of them does to the receiver's packet.
use enet_revamp.Base.{
  ℕ, ◌+◌, ◌-◌, ◌≤◌, ◌<◌, ◌≡◌, inl, inr, refl, ap, ◌∙◌, Bool, true, false, ltb, u16, u32,
  if◌then◌else◌, Option, none, some, List, [], ◌∷◌, arith, Bool-cases,
}
use enet_revamp.Protocol.{Body, SendFragment}
use enet_revamp.State.{OutgoingCommand, IncomingCommand, Memory, Packet}
use enet_revamp.Peer.Send.{Plan, fragment}
use enet_revamp.Handle.Send.{Received}
use enet_revamp.Handle.Fragment.{
  bitmap, tick_off, overwrite, copy_into, copied_length, length_at, take_fragment,
}
use enet_revamp.Handle.Fragment.Bitmap.{or_stays, arrive}
use enet_revamp.Handle.Fragment.Pieces.{covers}

-- What a datagram has behind a command that was sent with bytes of the packet `source`: those bytes,
-- and whatever follows them.
abbrev pub carried : (ℕ → Option ℕ) → (ℕ → Option ℕ) → OutgoingCommand → Received
carried source after o = record {
  left = o.fragment_length;
  bytes = λ j. if ltb j o.fragment_length then source (o.fragment_offset + j) else after j;
}

-- A sent fragment arrives for a command, and fragments arrive one after another: the command and the
-- memory after it. The receiver reads the command that was sent, and no more of the sender's record.
abbrev pub deliver :
    (ℕ → Option ℕ)
    → (ℕ → Option ℕ)
    → OutgoingCommand
    → IncomingCommand × Memory
    → IncomingCommand × Memory
deliver source after o x = elim o.command.body [
  | Body.send_fragment b ↦ arrive (b, carried source after o) x
  | _ ↦ x
]

abbrev pub deliver_all :
    (ℕ → Option ℕ)
    → (ℕ → Option ℕ)
    → List OutgoingCommand
    → IncomingCommand × Memory
    → IncomingCommand × Memory
deliver_all source after [] x = x
deliver_all source after (o ∷ rest) x = deliver_all source after rest (deliver source after o x)

-- A byte of a packet; none where there is no packet, or nothing was written.
abbrev pub byte_of : ℕ → Option Packet → Option ℕ
byte_of i none = none
byte_of i (some p) = elim p.contents [ none ↦ none | some bytes ↦ bytes i ]

abbrev pub byte_at : ℕ → ℕ → Memory → Option ℕ
byte_at a i m = byte_of i (m.packets a)

-- A command whose packet has a buffer of the full length.
pub record HasBuffer (a total : ℕ) (c : IncomingCommand) (m : Memory) : Type 0 where
  pub packet : Packet
  pub contents : ℕ → Option ℕ
  pub here : c.packet ≡ some a
  pub there : m.packets a ≡ some packet
  pub filled : packet.contents ≡ some contents
  pub whole : packet.data_length ≡ total

HasBuffer-length :
    (a total : ℕ) (c : IncomingCommand) (m : Memory)
    → HasBuffer a total c m
    → length_at c.packet m ≡ total
unfolding length_at
HasBuffer-length a total c m b =
    let p = b.here in let e = b.there in let w = b.whole in ground arith

HasBuffer-copy :
    (a total offset len : ℕ) (bytes : ℕ → Option ℕ) (c : IncomingCommand) (m : Memory)
    (b : HasBuffer a total c m)
    → (copy_into c.packet offset len bytes m).packets a
      ≡ some (record (b.packet) { contents = some (overwrite offset len bytes b.contents) })
unfolding copy_into
HasBuffer-copy a total offset len bytes c m b =
    let p = b.here in let e = b.there in let w = b.filled in ground arith

HasBuffer-byte :
    (a total i : ℕ) (c : IncomingCommand) (m : Memory) (b : HasBuffer a total c m)
    → byte_at a i m ≡ b.contents i
HasBuffer-byte a total i c m b = let e = b.there in let f = b.filled in ground arith

same_place : (source : ℕ → Option ℕ) (i n : ℕ) → n ≤ i → source (n + (i - n)) ≡ source i
same_place source i n h = ap source (omega arith)

not_cut :
    (plan : Plan) (b : SendFragment) (len total : ℕ)
    → b.data_length ≡ len
    → b.fragment_offset + len ≤ total
    → total < 4294967296
    → copied_length b total ≡ len
unfolding copied_length
not_cut plan b len total e l h = ground arith

module _ (source after : ℕ → Option ℕ) (plan : Plan) (number offset len a : ℕ) (c : IncomingCommand)
    (m : Memory) where
  abbrev sent : OutgoingCommand
  sent = fragment plan number offset len

  abbrev result : IncomingCommand × Memory
  result = deliver source after sent (c, m)

  abbrev body : SendFragment
  body = record {
    start_sequence_number = plan.start_sequence_number;
    data_length = u16 len;
    fragment_count = plan.fragment_count;
    fragment_number = number;
    total_length = u32 plan.total_length;
    fragment_offset = offset;
  }

  abbrev taken : ℕ → IncomingCommand × Memory
  taken n = (tick_off number c, copy_into c.packet offset n (carried source after sent).bytes m)

  abbrev choice : Bool → IncomingCommand × Memory
  choice t =
      or_stays (c, m) (if t then none else some (taken (copied_length body (length_at c.packet m))))

  pub known_stays : bitmap c number ≡ true → result ≡ (c, m)
  unfolding take_fragment
  known_stays h = ap choice h

  pub new_result :
      bitmap c number ≡ false
      → offset + len ≤ plan.total_length
      → len < 65536
      → plan.total_length < 4294967296
      → HasBuffer a plan.total_length c m
      → result ≡ taken len
  unfolding take_fragment
  new_result h inside small total b =
      ap choice h
      ∙ ap taken (
          ap (copied_length body) (HasBuffer-length a plan.total_length c m b)
          ∙ not_cut plan body len plan.total_length (omega arith) inside total)

  new_packet :
      bitmap c number ≡ false
      → offset + len ≤ plan.total_length
      → len < 65536
      → plan.total_length < 4294967296
      → (b : HasBuffer a plan.total_length c m)
      → result.1.packets a
        ≡ some (record (b.packet) {
          contents = some (overwrite offset len (carried source after sent).bytes b.contents);
        })
  new_packet h inside small total b =
      ap (λ (x : IncomingCommand × Memory). x.1.packets a) (new_result h inside small total b)
      ∙ HasBuffer-copy a plan.total_length offset len (carried source after sent).bytes c m b

  -- What was written is there, and nothing else has changed.
  pub new_byte :
      (i : ℕ)
      → bitmap c number ≡ false
      → offset + len ≤ plan.total_length
      → len < 65536
      → plan.total_length < 4294967296
      → HasBuffer a plan.total_length c m
      → byte_at a i result.1 ≡ (if covers i sent then source i else byte_at a i m)
  unfolding overwrite
  new_byte i h inside small total b =
      let there = ap (byte_of i) (new_packet h inside small total b) in
      elim (Bool-cases (covers i sent)) [
        | inl in_it ↦
            let place = same_place source i offset (ground arith) in
            rw in_it (there ∙ ground (arith, place))
        | inr out ↦
            let same = HasBuffer-byte a plan.total_length i c m b in
            rw out (there ∙ ground (arith, same))
      ]

  pub new_HasBuffer :
      bitmap c number ≡ false
      → offset + len ≤ plan.total_length
      → len < 65536
      → plan.total_length < 4294967296
      → HasBuffer a plan.total_length c m
      → HasBuffer a plan.total_length result.0 result.1
  unfolding tick_off
  new_HasBuffer h inside small total b = record {
    packet = record (b.packet) {
      contents = some (overwrite offset len (carried source after sent).bytes b.contents);
    };
    contents = overwrite offset len (carried source after sent).bytes b.contents;
    here =
        ap (λ (x : IncomingCommand × Memory). x.0.packet) (new_result h inside small total b)
        ∙ b.here;
    there = new_packet h inside small total b;
    filled = refl;
    whole = b.whole;
  }
