-- ===== src/Peer/Queues/Ownership.antt =====
-- Emptying a peer's queues gives up exactly the packet references that its commands hold
-- (enet_peer_reset_queues of src/peer.c).
use enet_revamp.Base.{
  ℕ, zero, suc, ◌-◌, ◌<◌, ◌≡◌, refl, ap, ◌∙◌, Option, none, some, List, [], ◌∷◌, ◌++◌, map, arith,
}
use enet_revamp.State.{Memory, Packet, OutgoingCommand, IncomingCommand, Channel, Peer, Session}
use enet_revamp.Packet.{release_option, release_all}
use enet_revamp.Packet.References.{references, release_all-kept, release_all-last}
use enet_revamp.Session.{memory, leave_dispatch}
use enet_revamp.Peer.Queues.{
  reset_outgoing_commands, remove_incoming_commands, reset_incoming_commands, reset_channels,
  reset_memory, reset_queues,
}

abbrev pub outgoing_packets : List OutgoingCommand → List (Option ℕ)
outgoing_packets = map (λ o. o.packet)

abbrev pub incoming_packets : List IncomingCommand → List (Option ℕ)
incoming_packets = map (λ c. c.packet)

abbrev pub channel_packets : ℕ → List Channel → List (Option ℕ)
channel_packets zero channels = []
channel_packets (suc n) [] = []
channel_packets (suc n) (c ∷ rest) =
    incoming_packets c.incoming_reliable_commands
    ++ (incoming_packets c.incoming_unreliable_commands ++ channel_packets n rest)

-- The packet pointers of all commands in the queues of a peer.
abbrev pub packets_of : Peer → List (Option ℕ)
packets_of p =
    outgoing_packets p.sent_reliable_commands
    ++ (outgoing_packets p.outgoing_commands
        ++ (outgoing_packets p.outgoing_send_reliable_commands
            ++ (incoming_packets p.dispatched_commands
                ++ channel_packets p.channel_count p.channels)))

release_all-append :
    (xs ys : List (Option ℕ)) (m : Memory)
    → release_all (xs ++ ys) m ≡ release_all ys (release_all xs m)
unfolding release_all
release_all-append [] ys m = refl
release_all-append (x ∷ xs) ys m = release_all-append xs ys (release_option x m)

reset_outgoing-release_all :
    (q : List OutgoingCommand) (m : Memory)
    → reset_outgoing_commands q m ≡ release_all (outgoing_packets q) m
unfolding reset_outgoing_commands release_all
reset_outgoing-release_all [] m = refl
reset_outgoing-release_all (o ∷ q) m = reset_outgoing-release_all q (release_option o.packet m)

reset_incoming-release_all :
    (q : List IncomingCommand) (m : Memory)
    → reset_incoming_commands q m ≡ release_all (incoming_packets q) m
unfolding reset_incoming_commands remove_incoming_commands release_all
reset_incoming-release_all [] m = refl
reset_incoming-release_all (c ∷ q) m = reset_incoming-release_all q (release_option c.packet m)

reset_channels-release_all :
    (n : ℕ) (channels : List Channel) (m : Memory)
    → reset_channels n channels m ≡ release_all (channel_packets n channels) m
unfolding reset_channels release_all
reset_channels-release_all zero channels m = refl
reset_channels-release_all (suc n) [] m = refl
reset_channels-release_all (suc n) (c ∷ rest) m =
    simp (release_all-append, reset_incoming-release_all, reset_channels-release_all n rest)

reset_memory-release_all : (p : Peer) (m : Memory) → reset_memory p m ≡ release_all (packets_of p) m
unfolding reset_memory
reset_memory-release_all p m = simp (
  release_all-append, reset_incoming-release_all, reset_outgoing-release_all,
  reset_channels-release_all,
)

reset_queues-release_all :
    (s : Session) → memory (reset_queues s) ≡ release_all (packets_of s.peer) (memory s)
unfolding reset_queues leave_dispatch
reset_queues-release_all s = ground (arith, reset_memory-release_all s.peer (memory s))

-- Emptying the queues of a peer takes from each packet the references that the commands in those
-- queues hold, no more and no fewer: a packet with other references keeps them.
pub reset_queues-kept :
    (s : Session) (a : ℕ) (p : Packet)
    → (memory s).packets a ≡ some p
    → references a (packets_of s.peer) < p.reference_count
    → p.reference_count < 18446744073709551616
    → (memory (reset_queues s)).packets a
      ≡ some (record p { reference_count = p.reference_count - references a (packets_of s.peer) })
reset_queues-kept s a p e h b =
    ap (λ (m : Memory). m.packets a) (reset_queues-release_all s)
    ∙ release_all-kept a (packets_of s.peer) (memory s) p e h b

-- A packet that only the commands in the queues of a peer refer to is destroyed when the queues are
-- emptied, however many of them share it.
pub reset_queues-destroyed :
    (s : Session) (a : ℕ) (p : Packet)
    → (memory s).packets a ≡ some p
    → references a (packets_of s.peer) ≡ p.reference_count
    → 0 < p.reference_count
    → p.reference_count < 18446744073709551616
    → (memory (reset_queues s)).packets a ≡ none
reset_queues-destroyed s a p e h z b =
    ap (λ (m : Memory). m.packets a) (reset_queues-release_all s)
    ∙ release_all-last a (packets_of s.peer) (memory s) p e h z b
