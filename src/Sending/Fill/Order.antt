-- ===== src/Sending/Fill/Order.antt =====
-- The order of the acknowledged packets of a peer while enet_protocol_check_outgoing_commands
-- (src/protocol.c) fills a datagram.
use mathlib.Core.List.{append-nil}
use enet_revamp.Base.{
  clash, ℕ, ◌+◌, length, ◌≡◌, refl, ◌∙◌, inl, inr, true, false, none, some, Bool-cases, List, [],
  ◌∷◌, ◌++◌, All, if◌then◌else◌,
}
use enet_revamp.Time.{time_less}
use enet_revamp.Protocol.{Protocol}
use enet_revamp.Packet.{release_option}
use enet_revamp.State.{OutgoingCommand, Session}
use enet_revamp.Sending.Datagram.{Datagram}
use enet_revamp.Sending.Fill.{
  Filling, Pick, pick, skip, leave, break_off, emit_reliable, emit_unreliable, write_out,
  throttle_packet, consider, fill_datagram, start_filling,
}
use enet_revamp.Sending.Fill.Walk.{
  Holds, consider-Holds, fill-keeps, Picked, pick-Picked, drop_same-All, stepped, asked,
}
use enet_revamp.Sending.Fill.Line.{
  IsPlain, IsReliablePacket, line, Phase, pick-queue, later, left_line, given_up_line, leave-sent,
  step_throttle-sent, sent_line, unasked_queue,
}

record IsInLine (base : List Protocol) (plain reliable : List OutgoingCommand) (w : Filling)
    : Type 0 where
  in_line : line w.peer.sent_reliable_commands (w.skipped_reliable ++ reliable) ≡ base
  phase : Phase w reliable
  plains : All IsPlain plain
  reliables : All IsReliablePacket reliable

given_up-IsInLine :
    (base : List Protocol) (k : Pick) (w : Filling) (reliable : List OutgoingCommand)
    → reliable ≡ (if k.from_reliable then k.command ∷ k.reliable else k.reliable)
    → line w.peer.sent_reliable_commands (w.skipped_reliable ++ reliable) ≡ base
    → All IsPlain k.plain
    → IsInLine base k.plain [] (skip [] k.reliable (leave k w))
given_up-IsInLine base k w reliable queue e p = record {
  in_line = given_up_line k w reliable queue ∙ e;
  phase = inr refl;
  plains = p;
  reliables = tt;
}

-- A round of the loop that begins with `in_line`.
module _ (base : List Protocol) (k : Pick) (w : Filling) (plain reliable : List OutgoingCommand)
    (e : pick plain reliable ≡ some k) (h : IsInLine base plain reliable w) where
  queue : reliable ≡ (if k.from_reliable then k.command ∷ k.reliable else k.reliable)
  queue = pick-queue plain reliable k e

  picked : Picked IsPlain IsReliablePacket k
  picked = pick-Picked IsPlain IsReliablePacket plain reliable k e h.plains h.reliables

  passed-IsInLine : w.window_wrap ≡ true → IsInLine base k.plain k.reliable (leave k w)
  passed-IsInLine wrap = record {
    in_line = rw (left_line k w reliable queue, leave-sent k w) h.in_line;
    phase = closed (later k w reliable queue h.phase);
    plains = picked.1;
    reliables = picked.2;
  }
    where
      closed : Phase w k.reliable → Phase (leave k w) k.reliable
      closed (inl (no_wrap, _)) = absurd (clash w.window_wrap wrap no_wrap)
      closed (inr none_left) = inr none_left

  broken-IsInLine : IsInLine base [] [] (break_off k w)
  unfolding break_off
  broken-IsInLine = record {
    in_line = given_up_line k w reliable queue ∙ h.in_line;
    phase = inr refl;
    plains = tt;
    reliables = tt;
  }

  emit_reliable-IsInLine :
      (now : ℕ)
      → asked k ≡ true
      → IsInLine base k.plain k.reliable
          (emit_reliable now k.command (record w { can_ping = false }))
  unfolding emit_reliable write_out
  emit_reliable-IsInLine now a = record {
    in_line = sent_line k w reliable now queue picked h.phase a ∙ h.in_line;
    phase = later k w reliable queue h.phase;
    plains = picked.1;
    reliables = picked.2;
  }

  unasked_line :
      asked k ≡ false
      → line (stepped k w).peer.sent_reliable_commands (w.skipped_reliable ++ k.reliable) ≡ base
  unasked_line a =
      rw (step_throttle-sent k.command w.peer, ← unasked_queue k w reliable queue picked a)
        h.in_line

  emit_unreliable-IsInLine :
      asked k ≡ false → IsInLine base k.plain k.reliable (emit_unreliable k.command (stepped k w))
  unfolding emit_unreliable write_out
  emit_unreliable-IsInLine a = record {
    in_line = unasked_line a;
    phase = later k w reliable queue h.phase;
    plains = picked.1;
    reliables = picked.2;
  }

  throttled-IsInLine : asked k ≡ false → Holds (IsInLine base) (throttle_packet k (stepped k w))
  unfolding throttle_packet Holds
  throttled-IsInLine a = record {
    in_line = unasked_line a;
    phase = later k w reliable queue h.phase;
    plains =
        drop_same-All IsPlain k.command k.plain (release_option k.command.packet w.memory) picked.1;
    reliables = picked.2;
  }

round-IsInLine :
    (base : List Protocol) (now : ℕ) (w : Filling) (k : Pick)
    (plain reliable : List OutgoingCommand)
    → pick plain reliable ≡ some k
    → IsInLine base plain reliable w
    → Holds (IsInLine base) (consider now k w)
unfolding Holds
round-IsInLine base now w k plain reliable e h =
    let q = pick-queue plain reliable k e in
    let plains = (pick-Picked IsPlain IsReliablePacket plain reliable k e h.plains h.reliables).1 in
    consider-Holds (IsInLine base) now k w (passed-IsInLine base k w plain reliable e h)
      (given_up-IsInLine base k (record w { window_wrap = true }) reliable q h.in_line plains)
      (given_up-IsInLine base k w reliable q h.in_line plains)
      (λ ping.
        broken-IsInLine base k (record w { can_ping = ping }) plain reliable e
          (record {
            in_line = h.in_line;
            phase = h.phase;
            plains = h.plains;
            reliables = h.reliables;
          }))
      (λ a _. emit_reliable-IsInLine base k w plain reliable e h now a)
      (throttled-IsInLine base k w plain reliable e h)
      (λ a _. emit_unreliable-IsInLine base k w plain reliable e h a)

last-IsInLine :
    (base : List Protocol) (w : Filling) (plain reliable : List OutgoingCommand)
    → IsInLine base plain reliable w
    → IsInLine base [] [] (skip plain reliable w)
last-IsInLine base w plain reliable h = record {
  in_line = rw (append-nil (w.skipped_reliable ++ reliable)) h.in_line;
  phase = inr refl;
  plains = tt;
  reliables = tt;
}

pick-none : (plain reliable : List OutgoingCommand) → pick plain reliable ≡ none → reliable ≡ []
unfolding pick
pick-none [] [] e = refl
pick-none [] (c ∷ reliable) e = cc
pick-none (o ∷ plain) [] e = refl
pick-none (o ∷ plain) (c ∷ reliable) e = elim (Bool-cases (time_less c.queue_time o.queue_time)) [
  | inl h ↦ let bad = rw h at e in cc
  | inr h ↦ let bad = rw h at e in cc
]

empty-IsInLine :
    (base : List Protocol) (w : Filling) (plain reliable : List OutgoingCommand)
    → pick plain reliable ≡ none
    → IsInLine base plain reliable w
    → IsInLine base [] [] w
empty-IsInLine base w plain reliable e h = record {
  in_line = rw (pick-none plain reliable e) at h.in_line;
  phase = inr refl;
  plains = tt;
  reliables = tt;
}

-- Filling a datagram keeps the line of acknowledged packets: those that wait for an acknowledgement,
-- in the order they were sent, and behind them those that wait to be sent are the same commands in
-- the same order before and after, when the queue of reliable packets holds acknowledged commands
-- with packets and the other queue none. No such packet is lost, sent twice or overtaken.
pub fill_datagram-keeps_line :
    (sent : List OutgoingCommand) (s : Session) (d : Datagram)
    → All IsPlain s.peer.outgoing_commands
    → All IsReliablePacket s.peer.outgoing_send_reliable_commands
    → line
        (fill_datagram sent s d).peer.sent_reliable_commands
        (fill_datagram sent s d).skipped_reliable
      ≡ line s.peer.sent_reliable_commands s.peer.outgoing_send_reliable_commands
unfolding fill_datagram
fill_datagram-keeps_line sent s d p r =
    let base = line s.peer.sent_reliable_commands s.peer.outgoing_send_reliable_commands in
    let end =
      fill-keeps (IsInLine base) s.host.service_time (round-IsInLine base s.host.service_time)
        (last-IsInLine base) (empty-IsInLine base)
        (length s.peer.outgoing_commands + length s.peer.outgoing_send_reliable_commands)
        s.peer.outgoing_commands s.peer.outgoing_send_reliable_commands (start_filling sent s d)
        (record { in_line = refl; phase = inl (refl, refl); plains = p; reliables = r }) in
    (rw (append-nil (fill_datagram sent s d).skipped_reliable) at end.in_line)
