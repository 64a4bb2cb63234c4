-- ===== src/Peer/Outgoing/Standing.antt =====
-- What queueing a command leaves alone: the state and the bandwidth of the peer, and the counters of
-- its host. Code: enet_peer_queue_outgoing_command of src/peer.c.
use enet_revamp.Base.{ℕ, ◌≡◌, refl, ◌∙◌, Option, none, some, arith}
use enet_revamp.Protocol.{Protocol}
use enet_revamp.State.{Memory, OutgoingCommand, Peer, Session}
use enet_revamp.Session.{with_memory, memory}
use enet_revamp.Packet.{malloc}
use enet_revamp.Peer.Outgoing.{
  queue_outgoing_command, queue_allocated, setup_outgoing_command, number_command, enqueue,
}

-- Two sessions that agree on what the counters are made of.
pub record IsAgreed (s t : Session) : Type 0 where
  pub state : t.peer.state ≡ s.peer.state
  pub bandwidth : t.peer.incoming_bandwidth ≡ s.peer.incoming_bandwidth
  pub connected : t.host.connected_peers ≡ s.host.connected_peers
  pub limited : t.host.bandwidth_limited_peers ≡ s.host.bandwidth_limited_peers

number_command-state : (p : Peer) (o : OutgoingCommand) → (number_command p o).0.state ≡ p.state
unfolding number_command
number_command-state p o = ground arith

number_command-bandwidth :
    (p : Peer) (o : OutgoingCommand)
    → (number_command p o).0.incoming_bandwidth ≡ p.incoming_bandwidth
unfolding number_command
number_command-bandwidth p o = ground arith

enqueue-state : (p : Peer) (o : OutgoingCommand) → (enqueue p o).state ≡ p.state
unfolding enqueue
enqueue-state p o = ground arith

enqueue-bandwidth :
    (p : Peer) (o : OutgoingCommand) → (enqueue p o).incoming_bandwidth ≡ p.incoming_bandwidth
unfolding enqueue
enqueue-bandwidth p o = ground arith

setup-IsAgreed : (s : Session) (o : OutgoingCommand) → IsAgreed s (setup_outgoing_command s o)
unfolding setup_outgoing_command
setup-IsAgreed s o = record {
  state = enqueue-state _ _ ∙ number_command-state _ o;
  bandwidth = enqueue-bandwidth _ _ ∙ number_command-bandwidth _ o;
  connected = refl;
  limited = refl;
}

allocated-IsAgreed :
    (s : Session) (command : Protocol) (packet : Option ℕ) (offset length : ℕ)
    (r : Option ℕ × Memory)
    → IsAgreed s (queue_allocated s command packet offset length r).1
unfolding queue_allocated
allocated-IsAgreed s command packet offset length (none, m) = record {
  state = refl;
  bandwidth = refl;
  connected = refl;
  limited = refl;
}
allocated-IsAgreed s command packet offset length (some a, m) =
    let k = setup-IsAgreed (with_memory s _) _ in
    record {
      state = k.state;
      bandwidth = k.bandwidth;
      connected = k.connected;
      limited = k.limited;
    }

pub queue_outgoing_command-IsAgreed :
    (s : Session) (command : Protocol) (packet : Option ℕ) (offset length : ℕ)
    → IsAgreed s (queue_outgoing_command s command packet offset length).1
unfolding queue_outgoing_command
queue_outgoing_command-IsAgreed s command packet offset length =
    allocated-IsAgreed s command packet offset length (malloc (memory s))
