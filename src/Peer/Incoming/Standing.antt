-- ===== src/Peer/Incoming/Standing.antt =====
-- What queueing a received command leaves alone: the state of the peer, the number of its channels,
-- its window of unsequenced groups and the limits of its host. Code:
-- enet_peer_queue_incoming_command of src/peer.c.
use enet_revamp.Base.{
  ℕ, ◌≡◌, refl, ◌∙◌, Bool, true, false, Option, none, some, arith, if◌then◌else◌, ◌==◌, leb,
  Bool-cases, inl, inr, is_empty, Option-cases,
}
use enet_revamp.Protocol.{Protocol, kind, maximum_fragment_count}
use enet_revamp.State.{Memory, IncomingCommand, PeerState, Session}
use enet_revamp.Session.{request_dispatch, channel_at}
use enet_revamp.Packet.{malloc}
use enet_revamp.Peer.Dispatch.{dispatch_unreliable, dispatch_reliable, take_in_order}
use enet_revamp.Peer.Incoming.{
  Place, behind, discard, admit, admit_fragmented, admit_packet, admit_created, queue_at,
  queue_incoming_command, accepts, is_reliable_kind,
}

-- What the handlers of received commands test.
pub record Standing : Type 0 where
  pub state : PeerState
  pub channel_count : ℕ
  pub group : ℕ
  pub window : ℕ → Bool
  pub maximum_packet_size : ℕ
  pub service_time : ℕ

abbrev pub standing : Session → Standing
standing s = record {
  state = s.peer.state;
  channel_count = s.peer.channel_count;
  group = s.peer.incoming_unsequenced_group;
  window = s.peer.unsequenced_window;
  maximum_packet_size = s.host.maximum_packet_size;
  service_time = s.host.service_time;
}

request_dispatch-standing : (s : Session) → standing (request_dispatch s) ≡ standing s
unfolding request_dispatch
request_dispatch-standing s = elim (Bool-cases s.peer.needs_dispatch) [
  | inl h ↦ rw h
  | inr h ↦ rw h
]

pub dispatch_unreliable-standing :
    (s : Session) (k : ℕ) (queued : Option ℕ)
    → standing (dispatch_unreliable s k queued) ≡ standing s
unfolding dispatch_unreliable request_dispatch
dispatch_unreliable-standing s k queued = ground arith

chosen-standing :
    (s x y z : Session) (a b : Bool)
    → standing x ≡ standing s
    → standing y ≡ standing s
    → standing z ≡ standing s
    → standing (if a then x else if b then y else z) ≡ standing s
chosen-standing s x y z true b ex ey ez = ex
chosen-standing s x y z false true ex ey ez = ey
chosen-standing s x y z false false ex ey ez = ez

pub dispatch_reliable-standing :
    (s : Session) (k : ℕ) (queued : Option ℕ) → standing (dispatch_reliable s k queued) ≡ standing s
unfolding dispatch_reliable
dispatch_reliable-standing s k queued =
    let c = channel_at s.peer k in
    let taken = take_in_order c.incoming_reliable_sequence_number c.incoming_reliable_commands in
    chosen-standing s s _ _ (is_empty taken.0) (is_empty c.incoming_unreliable_commands) refl
      (request_dispatch-standing _)
      (dispatch_unreliable-standing _ k queued ∙ request_dispatch-standing _)

admit-standing :
    (s : Session) (n len : ℕ) (new : IncomingCommand) (packet : ℕ) (m : Memory)
    → standing (admit s n len new packet m).1 ≡ standing s
unfolding admit
admit-standing s n len new packet m =
    elim (Bool-cases (is_reliable_kind (kind new.command.header.command))) [
      | inl h ↦ rw h (dispatch_reliable-standing _ _ _)
      | inr h ↦ rw h (dispatch_unreliable-standing _ _ _)
    ]

admit_fragmented-standing :
    (s : Session) (command : Protocol) (n len count packet a : ℕ) (m : Memory)
    → standing (admit_fragmented s command n len count packet a m).1 ≡ standing s
unfolding admit_fragmented
admit_fragmented-standing s command n len count packet a m =
    elim (Bool-cases (leb count maximum_fragment_count)) [
      | inl h ↦ elim (Option-cases (malloc m).0) [
        | inl e ↦ rw (h, e) refl
        | inr (b, e) ↦ rw (h, e) (admit-standing s n len _ packet _)
      ]
      | inr h ↦ rw h refl
    ]

admit_packet-standing :
    (s : Session) (command : Protocol) (n len count packet : ℕ) (r : Option ℕ × Memory)
    → standing (admit_packet s command n len count packet r).1 ≡ standing s
unfolding admit_packet
admit_packet-standing s command n len count packet (none, m) = refl
admit_packet-standing s command n len count packet (some a, m) = elim (Bool-cases (count == 0)) [
  | inl h ↦ rw h (admit-standing s n len _ packet m)
  | inr h ↦ rw h (admit_fragmented-standing s command n len count packet a m)
]

admit_created-standing :
    (s : Session) (command : Protocol) (n len count : ℕ) (r : Option ℕ × Memory)
    → standing (admit_created s command n len count r).1 ≡ standing s
unfolding admit_created
admit_created-standing s command n len count (none, m) = refl
admit_created-standing s command n len count (some packet, m) =
    admit_packet-standing s command n len count packet (malloc m)

queue_at-standing :
    (s : Session) (command : Protocol) (bytes : Option (ℕ → Option ℕ)) (len flags count : ℕ)
    (at : Place)
    → standing (queue_at s command bytes len flags count at).1 ≡ standing s
unfolding queue_at
queue_at-standing s command bytes len flags count discard = refl
queue_at-standing s command bytes len flags count (behind n) =
    elim (Bool-cases (leb s.host.maximum_waiting_data s.peer.total_waiting_data)) [
      | inl h ↦ rw h refl
      | inr h ↦ rw h (admit_created-standing s command n len count _)
    ]

pub queue_incoming_command-standing :
    (s : Session) (command : Protocol) (bytes : Option (ℕ → Option ℕ)) (len flags count : ℕ)
    → standing (queue_incoming_command s command bytes len flags count).1 ≡ standing s
unfolding queue_incoming_command
queue_incoming_command-standing s command bytes len flags count =
    elim (Bool-cases (accepts s.peer command)) [
      | inl h ↦ rw h (queue_at-standing s command bytes len flags count _)
      | inr h ↦ rw h refl
    ]
