-- ===== src/Sending/Fill/Bounds.antt =====
-- The datagram that enet_protocol_check_outgoing_commands (src/protocol.c) fills stays within the
-- host's arrays and the peer's MTU.
use enet_revamp.Base.{
  if_lem, ℕ, ◌+◌, ◌≤◌, ◌<◌, ◌≡◌, refl, sym, subst, ◌∙◌, ◌==◌, inl, inr, Bool, true, false, ◌||◌,
  ◌&&◌, leb, ltb, some, List, [], ◌∷◌, arith, length, length-append, All, is_some, u16, sub64,
  get_or, Option-cases,
}
use enet_revamp.Protocol.{command_size, command_sizes, kind, maximum_packet_commands}
use enet_revamp.Packet.{release_option}
use enet_revamp.State.{OutgoingCommand, Peer, Session}
use enet_revamp.Sending.Datagram.{Part, Datagram, add_part, has_no_command, buffer_maximum}
use enet_revamp.Sending.Windows.{send_reliable, enter_window, has_channel}
use enet_revamp.Sending.Fill.{
  Filling, Pick, pick, with_sent_time, is_first, skip, has_no_room, write, write_out, emit_reliable,
  emit_unreliable, step_throttle, throttle_packet, leave, break_off, consider, fill_datagram,
  start_filling,
}
use enet_revamp.Sending.Fill.Walk.{
  Holds, consider-Holds, Picked, fill-keeps, pick-Picked, drop_same-All, stepped,
}

pub record InBounds (mtu : ℕ) (d : Datagram) : Type 0 where
  pub size : d.packet_size ≤ mtu
  pub buffers : d.buffer_count ≤ 65
  pub commands : length d.parts ≤ 32

sizes_le : (k : ℕ) → get_or command_sizes k 0 ≤ 48
sizes_le k = ground arith

command_size-le : (command : ℕ) → command_size command ≤ 48
unfolding command_size
command_size-le command = sizes_le (kind command)

-- The lengths of enet_peer_send: a command and its data stay below 2^16 bytes.
abbrev pub IsShort : OutgoingCommand → Type 0
IsShort o = o.fragment_length ≤ 65487

or_false : (a b : Bool) → (a || b) ≡ false → (a ≡ false) × (b ≡ false)
or_false true b h = cc
or_false false b h = (refl, h)

lt_of_leb : (a b : ℕ) → leb a b ≡ false → b < a
lt_of_leb a b h = ground arith

append-InBounds :
    (mtu : ℕ) (part : Part) (buffers size : ℕ) (d : Datagram)
    → InBounds mtu d
    → length d.parts < 32
    → d.buffer_count + buffers ≤ 65
    → d.packet_size + size ≤ mtu
    → InBounds mtu (add_part part buffers size d)
append-InBounds mtu part buffers size d b n buffer fits = record {
  size = fits;
  buffers = buffer;
  commands = omega (arith, length-append d.parts (part ∷ []));
}

fits_short :
    (mtu used size extra : ℕ)
    → mtu < 65536
    → used ≤ mtu
    → size + extra < 65536
    → ltb (u16 (sub64 mtu used)) (u16 (size + extra)) ≡ false
    → used + (size + extra) ≤ mtu
fits_short mtu used size extra m u s h = ground arith

fits :
    (mtu used size : ℕ)
    → mtu < 65536
    → used ≤ mtu
    → ltb (sub64 mtu used) size ≡ false
    → used + size ≤ mtu
fits mtu used size m u h = ground arith

-- What the test for room leaves.
record Room (mtu : ℕ) (o : OutgoingCommand) (d : Datagram) : Type 0 where
  commands : length d.parts < 32
  buffers : d.buffer_count + 2 ≤ 65
  alone : ltb (sub64 mtu d.packet_size) (command_size o.command.header.command) ≡ false
  with_data :
      (is_some o.packet
        && ltb
            (u16 (sub64 mtu d.packet_size))
            (u16 (command_size o.command.header.command + o.fragment_length)))
      ≡ false

Room-has_no_room :
    (mtu : ℕ) (o : OutgoingCommand) (d : Datagram) → has_no_room mtu o d ≡ false → Room mtu o d
unfolding has_no_room
Room-has_no_room mtu o d h =
    let left = or_false (has_no_command d) _ h in
    let here = or_false (leb buffer_maximum (d.buffer_count + 1)) _ left.1 in
    let (c, e) = or_false _ _ here.1 in
    record {
      commands = lt_of_leb maximum_packet_commands (length d.parts) left.0;
      buffers = omega (arith, lt_of_leb buffer_maximum (d.buffer_count + 1) here.0);
      alone = c;
      with_data = e;
    }

write-InBounds :
    (mtu : ℕ) (o : OutgoingCommand) (d : Datagram)
    → mtu < 65536
    → IsShort o
    → InBounds mtu d
    → has_no_room mtu o d ≡ false
    → InBounds mtu (write o d)
unfolding write
write-InBounds mtu o d m short b room =
    let r = Room-has_no_room mtu o d room in
    let size = command_size o.command.header.command in
    elim (Option-cases o.packet) [
      | inl e ↦ rw e (
          append-InBounds mtu _ 1 size d b r.commands (omega (arith, r.buffers))
            (fits mtu d.packet_size size m b.size r.alone))
      | inr (a, e) ↦ rw e (
          append-InBounds mtu _ 2 (size + o.fragment_length) d b r.commands r.buffers (
            fits_short mtu d.packet_size size o.fragment_length m b.size
              (omega (arith, command_size-le o.command.header.command, short))
              (rw e at r.with_data)))
    ]

enter_window-mtu : (o : OutgoingCommand) (p : Peer) → (enter_window o p).mtu ≡ p.mtu
unfolding enter_window
enter_window-mtu o p =
    if_lem (λ (q : Peer). q.mtu ≡ p.mtu) (has_channel o p && o.send_attempts == 0) (λ _. refl)
      (λ _. refl)

send_reliable-mtu : (now : ℕ) (o : OutgoingCommand) (p : Peer) → (send_reliable now o p).mtu ≡ p.mtu
unfolding send_reliable
send_reliable-mtu now o p = enter_window-mtu o p

step_throttle-mtu : (o : OutgoingCommand) (p : Peer) → (step_throttle o p).mtu ≡ p.mtu
unfolding step_throttle
step_throttle-mtu o p = if_lem (λ (q : Peer). q.mtu ≡ p.mtu) (is_first o) (λ _. refl) (λ _. refl)

record IsSound (mtu : ℕ) (plain reliable : List OutgoingCommand) (w : Filling) : Type 0 where
  mtu_kept : w.peer.mtu ≡ mtu
  bounds : InBounds mtu w.datagram
  short_plain : All IsShort plain
  short_reliable : All IsShort reliable

-- Putting a command and the rest of a queue aside touches neither the peer's MTU nor the datagram.
leave-mtu : (k : Pick) (w : Filling) → (leave k w).peer.mtu ≡ w.peer.mtu
unfolding leave
leave-mtu k w =
    if_lem (λ (v : Filling). v.peer.mtu ≡ w.peer.mtu) k.from_reliable (λ _. refl) (λ _. refl)

leave-datagram : (k : Pick) (w : Filling) → (leave k w).datagram ≡ w.datagram
unfolding leave
leave-datagram k w =
    if_lem (λ (v : Filling). v.datagram ≡ w.datagram) k.from_reliable (λ _. refl) (λ _. refl)

left-IsSound :
    (mtu : ℕ) (k : Pick) (w : Filling) (plain reliable : List OutgoingCommand)
    → w.peer.mtu ≡ mtu
    → InBounds mtu w.datagram
    → All IsShort plain
    → All IsShort reliable
    → IsSound mtu plain reliable (leave k w)
left-IsSound mtu k w plain reliable e b p r = record {
  mtu_kept = leave-mtu k w ∙ e;
  bounds = subst (InBounds mtu) (sym (leave-datagram k w)) b;
  short_plain = p;
  short_reliable = r;
}

aside-IsSound :
    (mtu : ℕ) (k : Pick) (w : Filling) (reliable : List OutgoingCommand)
    → w.peer.mtu ≡ mtu
    → InBounds mtu w.datagram
    → All IsShort k.plain
    → IsSound mtu k.plain [] (skip [] reliable (leave k w))
aside-IsSound mtu k w reliable e b p = record {
  mtu_kept = leave-mtu k w ∙ e;
  bounds = subst (InBounds mtu) (sym (leave-datagram k w)) b;
  short_plain = p;
  short_reliable = tt;
}

broken-IsSound :
    (mtu : ℕ) (k : Pick) (w : Filling)
    → w.peer.mtu ≡ mtu
    → InBounds mtu w.datagram
    → IsSound mtu [] [] (break_off k w)
unfolding break_off
broken-IsSound mtu k w e b = record {
  mtu_kept = leave-mtu k w ∙ e;
  bounds = subst (InBounds mtu) (sym (leave-datagram k w)) b;
  short_plain = tt;
  short_reliable = tt;
}

emit_reliable-InBounds :
    (mtu now : ℕ) (o : OutgoingCommand) (w : Filling)
    → mtu < 65536
    → IsShort o
    → InBounds mtu w.datagram
    → has_no_room mtu o w.datagram ≡ false
    → InBounds mtu (emit_reliable now o w).datagram
unfolding emit_reliable write_out has_no_room
emit_reliable-InBounds mtu now o w m short b room =
    write-InBounds mtu o (with_sent_time w.datagram) m short
      (record { size = b.size; buffers = b.buffers; commands = b.commands }) room

emit_unreliable-InBounds :
    (mtu : ℕ) (o : OutgoingCommand) (w : Filling)
    → mtu < 65536
    → IsShort o
    → InBounds mtu w.datagram
    → has_no_room mtu o w.datagram ≡ false
    → InBounds mtu (emit_unreliable o w).datagram
unfolding emit_unreliable write_out
emit_unreliable-InBounds mtu o w m short b room = write-InBounds mtu o w.datagram m short b room

emit_reliable-mtu :
    (now : ℕ) (o : OutgoingCommand) (w : Filling) → (emit_reliable now o w).peer.mtu ≡ w.peer.mtu
unfolding emit_reliable write_out
emit_reliable-mtu now o w = send_reliable-mtu now o w.peer

emit_unreliable-mtu :
    (o : OutgoingCommand) (w : Filling) → (emit_unreliable o w).peer.mtu ≡ w.peer.mtu
unfolding emit_unreliable write_out
emit_unreliable-mtu o w = refl

throttled-IsSound :
    (mtu : ℕ) (k : Pick) (w : Filling)
    → w.peer.mtu ≡ mtu
    → InBounds mtu w.datagram
    → All IsShort k.plain
    → All IsShort k.reliable
    → Holds (IsSound mtu) (throttle_packet k w)
unfolding throttle_packet Holds
throttled-IsSound mtu k w e b p r = record {
  mtu_kept = e;
  bounds = b;
  short_plain =
      drop_same-All IsShort k.command k.plain (release_option k.command.packet w.memory) p;
  short_reliable = r;
}

Picked-IsShort : (k : Pick) → Picked IsShort IsShort k → IsShort k.command
Picked-IsShort k (inl (e, h), _, _) = h
Picked-IsShort k (inr (e, h), _, _) = h

round-IsSound :
    (mtu now : ℕ)
    → mtu < 65536
    → (w : Filling) (k : Pick) (plain reliable : List OutgoingCommand)
    → pick plain reliable ≡ some k
    → IsSound mtu plain reliable w
    → Holds (IsSound mtu) (consider now k w)
unfolding Holds
round-IsSound mtu now m w k plain reliable e h =
    let picked = pick-Picked IsShort IsShort plain reliable k e h.short_plain h.short_reliable in
    let short = Picked-IsShort k picked in
    let t = step_throttle-mtu k.command w.peer ∙ h.mtu_kept in
    let here =
      λ (room : has_no_room w.peer.mtu k.command w.datagram ≡ false). rw h.mtu_kept at room in
    consider-Holds (IsSound mtu) now k w
      (λ _. left-IsSound mtu k w k.plain k.reliable h.mtu_kept h.bounds picked.1 picked.2)
      (aside-IsSound mtu k (record w { window_wrap = true }) k.reliable h.mtu_kept h.bounds
        picked.1)
      (aside-IsSound mtu k w k.reliable h.mtu_kept h.bounds picked.1)
      (λ ping. broken-IsSound mtu k (record w { can_ping = ping }) h.mtu_kept h.bounds)
      (λ _ room. record {
        mtu_kept = emit_reliable-mtu now k.command (record w { can_ping = false }) ∙ h.mtu_kept;
        bounds =
            emit_reliable-InBounds mtu now k.command (record w { can_ping = false }) m short
              h.bounds (here room);
        short_plain = picked.1;
        short_reliable = picked.2;
      })
      (λ _. throttled-IsSound mtu k (stepped k w) t h.bounds picked.1 picked.2)
      (λ _ room. record {
        mtu_kept = emit_unreliable-mtu k.command (stepped k w) ∙ t;
        bounds = emit_unreliable-InBounds mtu k.command (stepped k w) m short h.bounds (here room);
        short_plain = picked.1;
        short_reliable = picked.2;
      })

-- A datagram filled from queues of commands of at most 65,487 bytes of data each, for a peer with an
-- MTU below 2^16, has at most 32 commands, 65 buffers and, headers included, the bytes of the MTU,
-- if that held when the filling began. So no command or buffer is written past the host's arrays.
pub fill_datagram-InBounds :
    (sent : List OutgoingCommand) (s : Session) (d : Datagram)
    → s.peer.mtu < 65536
    → All IsShort s.peer.outgoing_commands
    → All IsShort s.peer.outgoing_send_reliable_commands
    → InBounds s.peer.mtu d
    → InBounds s.peer.mtu (fill_datagram sent s d).datagram
unfolding fill_datagram
fill_datagram-InBounds sent s d m p r b =
    (fill-keeps (IsSound s.peer.mtu) s.host.service_time
      (round-IsSound s.peer.mtu s.host.service_time m)
      (λ w plain reliable h. record {
        mtu_kept = h.mtu_kept;
        bounds = h.bounds;
        short_plain = tt;
        short_reliable = tt;
      })
      (λ w plain reliable e h. record {
        mtu_kept = h.mtu_kept;
        bounds = h.bounds;
        short_plain = tt;
        short_reliable = tt;
      })
      _ s.peer.outgoing_commands s.peer.outgoing_send_reliable_commands (start_filling sent s d)
      (record { mtu_kept = refl; bounds = b; short_plain = p; short_reliable = r })).bounds
