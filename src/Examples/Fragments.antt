-- ===== src/Examples/Fragments.antt =====
-- Examples of the handlers of fragments and unsequenced packets.
use enet_revamp.Base.{
  ℕ, ◌+◌, ◌<◌, ◌≡◌, refl, inl, inr, true, false, none, some, List, [], ◌∷◌, arith,
}
use enet_revamp.Protocol.{Protocol, Body, SendFragment, protocol, wants_acknowledge, kind}
use enet_revamp.Protocol.Command
use mathlib.Core.List.{Memᴰ}
use mathlib.Core.List.Memᴰ.{head, tail}
use enet_revamp.Handle.Fragment.{take_fragment, length_at, copied_length, copy_into, tick_off}
use enet_revamp.Peer.Incoming.{
  incoming, queue_incoming_command, queue_at, admit_created, admit_packet, admit_fragmented, admit,
  place, accepts, place_reliable, place_unreliable,
}
use enet_revamp.Packet.{create, malloc, new_packet}
use enet_revamp.State.{OutgoingCommand, Packet, Memory}
use enet_revamp.Peer.Send.{Plan, fragment}
use enet_revamp.Handle.Send.{
  is_open, has_arrived, move_window, mark_group, queue_received, unless_failed,
  handle_send_unsequenced, Received, is_far,
}
use enet_revamp.Handle.Send.Once.{unsequenced_once}
use enet_revamp.Handle.Fragment.Bitmap.{
  complete_needs_all, all_complete, arrived, is_among, awaiting,
}
use enet_revamp.Handle.Fragment.Reassembly.{reassembled}
use enet_revamp.Handle.Fragment.Delivery.{deliver_all, byte_at}
use enet_revamp.Examples.Data.{memory_of, session_of, blank_peer}

abbrev fragment_command : Protocol
fragment_command = protocol (Command.send_fragment + 128) 0 Body.ping

-- Fragments of a packet of seven bytes, cut after five of them.
abbrev first : SendFragment × Received
first = (
  record {
    start_sequence_number = 1;
    data_length = 5;
    fragment_count = 2;
    fragment_number = 0;
    total_length = 7;
    fragment_offset = 0;
  },
  record { left = 5; bytes = λ j. some j },
)

abbrev second : SendFragment × Received
second = (
  record {
    start_sequence_number = 1;
    data_length = 2;
    fragment_count = 2;
    fragment_number = 1;
    total_length = 7;
    fragment_offset = 5;
  },
  record { left = 2; bytes = λ j. some (5 + j) },
)

abbrev arrivals : List (SendFragment × Received)
arrivals = second ∷ first ∷ second ∷ []

abbrev empty_packet : Packet
empty_packet = new_packet 1 (some (λ j. none)) 7

abbrev waiting_memory : Memory
waiting_memory = memory_of (λ n. some empty_packet)

all_arrived : (arrived 0 fragment_command 2 1 waiting_memory arrivals).fragments_remaining ≡ 0
unfolding take_fragment length_at copied_length copy_into tick_off incoming
all_arrived = refl

each_arrived : (i : ℕ) → i < 2 → is_among i arrivals ≡ true
each_arrived i h = ground arith

complete_needs_all_example : is_among 1 arrivals ≡ true
complete_needs_all_example =
    complete_needs_all 0 fragment_command 2 1 waiting_memory arrivals 1 (omega arith)
      (omega arith, (omega arith, (omega arith, tt))) all_arrived (omega arith)

all_complete_example :
    (arrived 0 fragment_command 2 1 waiting_memory arrivals).fragments_remaining ≡ 0
all_complete_example =
    all_complete 0 fragment_command 2 1 waiting_memory arrivals (omega arith)
      (omega arith, (omega arith, (omega arith, tt))) each_arrived

-- The same packet as it is sent, of whose fragments the second arrives twice.
abbrev plan : Plan
plan = record {
  packet = 1;
  channel_id = 0;
  command_number = Command.send_fragment + 128;
  start_sequence_number = 1;
  fragment_count = 2;
  total_length = 7;
}

abbrev two_fragments : List OutgoingCommand
two_fragments = fragment plan 0 0 5 ∷ fragment plan 1 5 2 ∷ []

is_fragment :
    (o : OutgoingCommand) → Memᴰ o (fragment plan 1 5 2 ∷ two_fragments) → Memᴰ o two_fragments
is_fragment o (head e) = tail (head e)
is_fragment o (tail m) = m

reassembled_example :
    byte_at 1 6
      (deliver_all
        (λ j. some j)
        (λ j. none)
        (fragment plan 1 5 2 ∷ two_fragments)
        (awaiting 0 fragment_command 2 1, waiting_memory)).1
    ≡ some 6
reassembled_example =
    reassembled (λ j. some j) (λ j. none) (λ j. none) plan 5 6 0 1 2 fragment_command waiting_memory
      empty_packet two_fragments (fragment plan 1 5 2 ∷ two_fragments) (omega arith) (omega arith)
      (
        5,
        refl,
        omega arith,
        omega arith,
        inl refl,
        (2, refl, omega arith, omega arith, inr refl, refl),
      )
      is_fragment (λ o m. tail m) refl refl refl (omega arith)

-- A packet of five bytes in the unsequenced group 5.
abbrev unsequenced : Protocol
unsequenced =
    protocol (Command.send_unsequenced + 64) 0
      (Body.send_unsequenced (record { unsequenced_group = 5; data_length = 5 }))

abbrev five : Received
five = record { left = 5; bytes = λ i. some i }

accepted : (handle_send_unsequenced (session_of blank_peer) unsequenced five).0 ≡ true
unfolding handle_send_unsequenced is_open has_arrived is_far move_window mark_group queue_received
    unless_failed queue_incoming_command queue_at admit_created admit_packet admit_fragmented admit
    incoming place accepts place_reliable place_unreliable create malloc wants_acknowledge kind
accepted = refl

near : is_far (session_of blank_peer).peer 5 ≡ false
unfolding is_far
near = refl

unsequenced_once_example :
    (handle_send_unsequenced
      (handle_send_unsequenced (session_of blank_peer) unsequenced five).1
      unsequenced
      five).1
    ≡ (handle_send_unsequenced (session_of blank_peer) unsequenced five).1
unsequenced_once_example =
    unsequenced_once (session_of blank_peer) unsequenced five five (omega arith) near accepted
