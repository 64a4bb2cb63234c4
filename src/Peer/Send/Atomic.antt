-- ===== src/Peer/Send/Atomic.antt =====
-- A send that fails changes nothing (enet_peer_send of src/peer.c).
use enet_revamp.Base.{
  ℕ, zero, suc, ◌≡◌, refl, ◌∙◌, Bool, true, false, ltb, if◌then◌else◌, Option, none, some, List,
  arith, Bool-cases, Option-cases, inl, inr,
}
use enet_revamp.State.{Memory, OutgoingCommand, Packet, Session}
use enet_revamp.Packet.{malloc}
use enet_revamp.Protocol.{Protocol}
use enet_revamp.Session.{memory}
use enet_revamp.Peer.Outgoing.{queue_outgoing_command, queue_allocated}
use enet_revamp.Peer.Send.{Plan, cut, prepend, send, send_packet, send_fragments, finish_fragments}

malloc-packets : (m : Memory) → (malloc m).1.packets ≡ m.packets
unfolding malloc
malloc-packets m = ground arith

prepend-memory :
    (o : OutgoingCommand) (r : Option (List OutgoingCommand) × Memory) → (prepend o r).1 ≡ r.1
unfolding prepend
prepend-memory o (none, m) = refl
prepend-memory o (some l, m) = refl

cut-packets :
    (fuel : ℕ) (plan : Plan) (number offset size : ℕ) (m : Memory)
    → (cut fuel plan number offset size m).1.packets ≡ m.packets
unfolding cut
cut-packets zero plan number offset size m = refl
cut-packets (suc fuel) plan number offset size m =
    elim (Bool-cases (ltb offset plan.total_length)) [
      | inl more ↦ elim (Option-cases (malloc m).0) [
        | inl e ↦ rw (more, e) (malloc-packets m)
        | inr (b, e) ↦
            rw (more, e, prepend-memory)
              (cut-packets fuel plan _ _ _ (malloc m).1 ∙ malloc-packets m)
      ]
      | inr over ↦ rw over
    ]

-- What a failed call leaves alone: the peer and all packets.
pub record IsUnchanged (s t : Session) : Type 0 where
  pub peer : t.peer ≡ s.peer
  pub packets : (memory t).packets ≡ (memory s).packets

allocated-failed :
    (s : Session) (command : Protocol) (packet : Option ℕ) (offset len : ℕ) (r : Option ℕ × Memory)
    → r.1.packets ≡ (memory s).packets
    → (queue_allocated s command packet offset len r).0 ≡ false
    → IsUnchanged s (queue_allocated s command packet offset len r).1
unfolding queue_allocated
allocated-failed s command packet offset len (none, m) e h = record { peer = refl; packets = e }
allocated-failed s command packet offset len (some a, m) e h = cc

queue_outgoing-failed :
    (s : Session) (command : Protocol) (packet : Option ℕ) (offset len : ℕ)
    → (queue_outgoing_command s command packet offset len).0 ≡ false
    → IsUnchanged s (queue_outgoing_command s command packet offset len).1
unfolding queue_outgoing_command
queue_outgoing-failed s command packet offset len h =
    allocated-failed s command packet offset len (malloc (memory s)) (malloc-packets (memory s)) h

finish-failed :
    (s : Session) (a : ℕ) (r : Option (List OutgoingCommand) × Memory)
    → r.1.packets ≡ (memory s).packets
    → (finish_fragments s a r).0 ≡ false
    → IsUnchanged s (finish_fragments s a r).1
unfolding finish_fragments
finish-failed s a (none, m) e h = record { peer = refl; packets = e }
finish-failed s a (some l, m) e h = cc

-- Both branches of a test.
if-failed :
    (b : Bool) (s : Session) (x y : Bool × Session)
    → (x.0 ≡ false → IsUnchanged s x.1)
    → (y.0 ≡ false → IsUnchanged s y.1)
    → (if b then x else y).0 ≡ false
    → IsUnchanged s (if b then x else y).1
if-failed true s x y f g = f
if-failed false s x y f g = g

module _ (s : Session) (k a : ℕ) where
  refused : IsUnchanged s s
  refused = record { peer = refl; packets = refl }

  send_fragments-failed :
      (p : Packet) → (send_fragments s k a p).0 ≡ false → IsUnchanged s (send_fragments s k a p).1
  unfolding send_fragments
  send_fragments-failed p h =
      if-failed _ s _ _ (λ _. refused)
        (finish-failed s a _ (cut-packets (suc p.data_length) _ 0 0 _ (memory s))) h

  send_packet-failed :
      (p : Packet) → (send_packet s k a p).0 ≡ false → IsUnchanged s (send_packet s k a p).1
  unfolding send_packet
  send_packet-failed p h =
      if-failed _ s _ _ (λ _. refused)
        (if-failed _ s _ _ (send_fragments-failed p) (queue_outgoing-failed s _ _ _ _)) h

  -- A send that returns -1, on whatever branch, also when memory runs out between two fragments,
  -- leaves the peer with its queues and counters, and every packet with its reference count, as
  -- they were.
  pub send-failed : (send s k a).0 ≡ false → IsUnchanged s (send s k a).1
  unfolding send
  send-failed h = elim (Option-cases ((memory s).packets a)) [
    | inl e ↦ rw (e, send) refused
    | inr (p, e) ↦ rw (e, send) (send_packet-failed p (rw (e, send) at h))
  ]
