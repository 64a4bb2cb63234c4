-- ===== src/Examples/Peers.antt =====
-- Examples of the functions on peers.
use mathlib.Core.List.{reverse}
use enet_revamp.Base.{
  ◌==◌, ℕ, ◌+◌, ◌≤◌, ◌≡◌, ◌⊎◌, refl, true, false, arith, ltb, if◌then◌else◌, none, some, List, [],
  ◌∷◌, ◌++◌, length, bit, count,
}
use enet_revamp.Protocol.{wants_acknowledge}
use enet_revamp.State.{Packet, Memory, Peer, Session, IncomingCommand, OutgoingCommand}
use enet_revamp.Packet.{new_packet, retain, malloc}
use enet_revamp.Session.{memory, with_memory, channel_at, request_dispatch}
use enet_revamp.Peer.Queues.{reset_queues}
use enet_revamp.Peer.Queues.Ownership.{reset_queues-kept, reset_queues-destroyed}
use enet_revamp.Peer.Reset.{reset}
use enet_revamp.Peer.Reset.DispatchQueue.{
  reset_queues-IsCoherent, reset_breaks_queue, nodes, reset_forgets,
}
use enet_revamp.Peer.Throttle.{throttle, throttle_bounds, raised, lowered, unchanged}
use enet_revamp.Peer.Send.{
  send, send_packet, send_fragments, finish_fragments, cut, prepend, setup_all, plan_fragments,
  payload_size,
}
use enet_revamp.Peer.Send.Fragments.{Tiles, send-Tiles}
use enet_revamp.Peer.Send.Sequence.{Numbered, setup_all-Numbered}
use enet_revamp.Peer.Send.Atomic.{IsUnchanged, send-failed}
use enet_revamp.Peer.Outgoing.Numbering.{IsReliable}
use enet_revamp.Peer.Dispatch.{dispatch_unreliable, dispatch_reliable}
use enet_revamp.LinkedList.{Links, insert}
use enet_revamp.LinkedList.Refinement.{Represents}
use enet_revamp.Peer.Dispatch.Merge.{Merge}
use enet_revamp.Peer.Dispatch.Conservation.{AllReady, dispatch_unreliable-ready}
use enet_revamp.Peer.Queues.{remove_incoming_commands}
use enet_revamp.Peer.Dispatch.InOrder.{IsInOrder, dispatch_reliable-IsInOrder}
use enet_revamp.Peer.Incoming.{place_reliable, behind, discard, insert_at}
use enet_revamp.Peer.Incoming.Order.{place_reliable-keeps_order, has_number, IsDescending}
use enet_revamp.Examples.Data.{
  memory_of, stored, blank_peer, session_of, waiting_peer, sending_peer, sent_command, arrived,
  unsequenced_arrived,
}

abbrev shared : Packet
shared = record (new_packet 1 (some (λ j. some j)) 5) { reference_count = 3 }

reset_queues-kept_example :
    (memory (reset_queues (session_of sending_peer))).packets 1
    ≡ some (record shared { reference_count = 1 })
reset_queues-kept_example =
    reset_queues-kept (session_of sending_peer) 1 shared refl (omega arith) (omega arith)

abbrev three_times : Peer
three_times = record sending_peer { outgoing_commands = sent_command ∷ [] }

reset_queues-destroyed_example : (memory (reset_queues (session_of three_times))).packets 1 ≡ none
reset_queues-destroyed_example =
    reset_queues-destroyed (session_of three_times) 1 shared refl refl (omega arith) (omega arith)

abbrev flagged : Session
flagged = record {
  host = record ((session_of blank_peer).host) { dispatch_queue = 0 ∷ 3 ∷ [] };
  peer = record blank_peer { needs_dispatch = true };
}

reset_queues-IsCoherent_example :
    (count 0 (reset_queues flagged).host.dispatch_queue ≡ 0)
    × ((reset_queues flagged).peer.needs_dispatch ≡ false)
    × (count 3 (reset_queues flagged).host.dispatch_queue ≡ 1)
reset_queues-IsCoherent_example = reset_queues-IsCoherent flagged 3 refl (omega arith)

-- The pointers of the queue of the peers 0 and 3.
abbrev queue_links : Links
queue_links = record {
  next = λ n. if n == 0 then 1 else if n == 1 then 4 else 0;
  previous = λ n. if n == 0 then 4 else if n == 1 then 0 else 1;
}

queue_links-Represents : Represents queue_links 0 (nodes (0 ∷ 3 ∷ []))
queue_links-Represents = record {
  chain = (refl, refl, (refl, refl, (refl, refl)));
  distinct = λ n. ground arith;
}

reset_breaks_queue_example :
    ((reset flagged).host.dispatch_queue ≡ 0 ∷ 3 ∷ [])
    × ((reset flagged).peer.needs_dispatch ≡ false)
    × ((request_dispatch (reset flagged)).host.dispatch_sound ≡ false)
    × (¬ Represents (insert 0 1 queue_links) 0 (1 ∷ []))
reset_breaks_queue_example =
    reset_breaks_queue flagged queue_links (1 ∷ []) refl refl queue_links-Represents

reset_forgets_example :
    (reset (session_of waiting_peer)).peer ≡ (reset (session_of sending_peer)).peer
reset_forgets_example =
    reset_forgets (session_of waiting_peer) (session_of sending_peer) refl refl refl refl refl

sent_command-IsReliable : IsReliable 0 sent_command
unfolding wants_acknowledge
sent_command-IsReliable = record { channel = refl; acknowledged = refl; carries = refl }

setup_all-Numbered_example :
    (stamped : List OutgoingCommand) × ((setup_all
        (session_of blank_peer)
        (sent_command ∷ sent_command ∷ [])).peer.outgoing_send_reliable_commands
      ≡ [] ++ stamped)
    × Numbered 0 0 (sent_command ∷ sent_command ∷ []) stamped
setup_all-Numbered_example =
    setup_all-Numbered 0 (sent_command ∷ sent_command ∷ []) (session_of blank_peer) (omega arith)
      (omega arith) (sent_command-IsReliable, (sent_command-IsReliable, tt))

dispatch_reliable-IsInOrder_example :
    IsInOrder (session_of waiting_peer) 0 (dispatch_reliable (session_of waiting_peer) 0 none)
dispatch_reliable-IsInOrder_example =
    dispatch_reliable-IsInOrder (session_of waiting_peer) 0 none (omega arith)

place_reliable-keeps_order_example :
    ((place_reliable 1 3 (arrived 4 ∷ arrived 2 ∷ []) ≡ discard)
      × (has_number 3 (arrived 4 ∷ arrived 2 ∷ []) ≡ true))
    ⊎ ((n : ℕ) × (place_reliable 1 3 (arrived 4 ∷ arrived 2 ∷ []) ≡ behind n)
        × (has_number 3 (arrived 4 ∷ arrived 2 ∷ []) ≡ false)
        × IsDescending 1 (reverse (insert_at n (arrived 3) (arrived 2 ∷ arrived 4 ∷ []))))
place_reliable-keeps_order_example =
    place_reliable-keeps_order 1 (arrived 3) (arrived 2 ∷ arrived 4 ∷ []) (omega arith)
      (omega arith) (omega arith, (omega arith, tt), (omega arith, tt, tt))

throttle_bounds_example :
    ((throttle blank_peer 90).1.packet_throttle ≤ 32)
    × ((throttle blank_peer 90).1
        ≡ record blank_peer { packet_throttle = (throttle blank_peer 90).1.packet_throttle })
    × (((throttle blank_peer 90).0 ≡ raised)
          × ((20 ≤ (throttle blank_peer 90).1.packet_throttle) ⊎ (4294967296 ≤ 20 + 2))
        ⊎ ((throttle blank_peer 90).0 ≡ lowered)
          × ((throttle blank_peer 90).1.packet_throttle ≤ 20)
          × (20 ≤ (throttle blank_peer 90).1.packet_throttle + 2)
        ⊎ ((throttle blank_peer 90).0 ≡ unchanged)
          × (((throttle blank_peer 90).1.packet_throttle ≡ 20)
              ⊎ ((throttle blank_peer 90).1.packet_throttle ≡ 32)))
throttle_bounds_example = throttle_bounds blank_peer 90 (omega arith) (omega arith)

abbrev large : Packet
large = new_packet 1 (some (λ j. if ltb j 3000 then some 42 else none)) 3000

full_payload : payload_size (session_of blank_peer) ≡ 1372
unfolding payload_size
full_payload = refl

few_fragments :
    (plan_fragments
      (session_of blank_peer)
      0
      0
      large
      (payload_size (session_of blank_peer))).fragment_count
    ≤ 1048576
unfolding plan_fragments payload_size bit
few_fragments = omega arith

send-Tiles_example :
    (fragments : List OutgoingCommand) × (m : Memory) × (send (session_of blank_peer) 0 0 ≡ (
      true,
      setup_all (with_memory (session_of blank_peer) (retain (length fragments) 0 m)) fragments,
    ))
    × (m.packets ≡ stored)
    × Tiles
        (plan_fragments (session_of blank_peer) 0 0 large (payload_size (session_of blank_peer)))
        (payload_size (session_of blank_peer))
        0
        0
        fragments
    × (length fragments
        ≡ (plan_fragments
            (session_of blank_peer)
            0
            0
            large
            (payload_size (session_of blank_peer))).fragment_count)
send-Tiles_example =
    send-Tiles (session_of blank_peer) 0 0 large refl refl (omega arith) (omega arith) (omega arith)
      (rw full_payload (omega arith)) (rw full_payload (omega arith)) few_fragments (λ n. refl)

abbrev poor : Session
poor = record {
  host = record ((session_of blank_peer).host) {
    memory = record (memory_of stored) { grants = λ n. ltb n 11 };
  };
  peer = blank_peer;
}

-- Memory runs out after the first fragment.
out_of_memory : (send poor 0 0).0 ≡ false
unfolding send send_packet send_fragments finish_fragments plan_fragments payload_size cut prepend
    malloc bit
out_of_memory = refl

send-failed_example : IsUnchanged poor (send poor 0 0).1
send-failed_example = send-failed poor 0 0 out_of_memory

dispatch_unreliable-ready_example :
    (handed front back : List IncomingCommand) × ((dispatch_unreliable
        (session_of waiting_peer)
        0
        none).peer.dispatched_commands
      ≡ [] ++ handed)
    × AllReady 0 handed
    × ((channel_at
          (dispatch_unreliable (session_of waiting_peer) 0 none).peer
          0).incoming_unreliable_commands
        ≡ (remove_incoming_commands front none (memory_of stored)).0 ++ back)
    × Merge handed (front ++ back) (unsequenced_arrived ∷ [])
dispatch_unreliable-ready_example =
    dispatch_unreliable-ready (session_of waiting_peer) 0 none (omega arith)
