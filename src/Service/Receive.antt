-- ===== src/Service/Receive.antt =====
-- The commands of a datagram that arrived: enet_protocol_handle_incoming_commands of src/protocol.c.
-- The decompressor and the calls of enet_host_flush are arguments.
pub mod Rounds
use enet_revamp.Base.{
  ℕ, zero, suc, ◌+◌, ◌-◌, ◌/◌, ◌%◌, Bool, true, false, not, ◌&&◌, ◌||◌, ◌==◌, leb, ltb,
  if◌then◌else◌, Option, none, some, List, [], ◌∷◌, length, is_some, u32, bit,
}
use enet_revamp.Protocol.{
  Protocol, Body, kind, wants_acknowledge, command_size, maximum_peer_id, maximum_mtu,
}
use enet_revamp.Protocol.Command
use enet_revamp.Protocol.Decoding.{get16, get32_raw, decode}
use enet_revamp.State.{
  Address, Peer, Host, Session, PeerState, is_state, Event, EventType, no_event,
}
use enet_revamp.Session.{focus, settle, with_peer}
use enet_revamp.Peer.Outgoing.{queue_acknowledgement}
use enet_revamp.Handle.Acknowledge.{Outcome, outcome, handle_acknowledge}
use enet_revamp.Handle.Connect.{handle_connect}
use enet_revamp.Handle.Control.{
  handle_ping, handle_bandwidth_limit, handle_throttle_configure, handle_disconnect,
}
use enet_revamp.Handle.Fragment.{handle_send_fragment, handle_send_unreliable_fragment}
use enet_revamp.Handle.Send.{
  Received, data_length_of, handle_send_reliable, handle_send_unreliable, handle_send_unsequenced,
}
use enet_revamp.Handle.Verify.{handle_verify_connect}
use enet_revamp.Service.Arrival.{
  Arrival, Header, read_header, Sender, rejected, unknown, known, sender_of, unpack, has_checksum,
}

-- The variables of the loop: `peer` is its index, none for NULL; `place` is `currentData`.
pub record Reading : Type 0 where
  pub host : Host
  pub peer : Option ℕ
  pub event : Option Event
  pub place : ℕ

-- How a round ends: the loop goes on, or it is left.
pub data Round : Type 0 where
  go_on left : Reading → Round

abbrev answer : Option Event → Bool × Session → Outcome
answer event (accepted, s) = record { accepted = accepted; event = event; session = s }

-- The `switch` on the command, for a known peer.
unfoldable pub handle : (Host → Host) → Option Event → Session → Protocol → Received → Outcome
unfolding handle_acknowledge handle_verify_connect handle_disconnect handle_ping
    handle_send_reliable handle_send_unreliable handle_send_unsequenced handle_send_fragment
    handle_send_unreliable_fragment handle_bandwidth_limit handle_throttle_configure kind
handle flush event s command r = elim command.body [
  | Body.acknowledge b ↦
      handle_acknowledge flush event s command.header.channel_id b.received_reliable_sequence_number
        b.received_sent_time
  | Body.connect b ↦ answer event (false, s)
  | Body.verify_connect b ↦ handle_verify_connect event s b
  | Body.disconnect n ↦ answer event (handle_disconnect s command.header.command n)
  | Body.ping ↦ answer event (handle_ping s, s)
  | Body.send_reliable n ↦ answer event (handle_send_reliable s command r)
  | Body.send_unreliable b ↦ answer event (handle_send_unreliable s command r)
  | Body.send_unsequenced b ↦ answer event (handle_send_unsequenced s command r)
  | Body.send_fragment b ↦
      if kind command.header.command == Command.send_fragment
      then answer event (handle_send_fragment s command b r)
      else answer event (handle_send_unreliable_fragment s command b r)
  | Body.bandwidth_limit b ↦ answer event (handle_bandwidth_limit s b)
  | Body.throttle_configure b ↦ answer event (handle_throttle_configure s b)
]

-- Whether the state of the peer lets a command be acknowledged.
unfoldable pub may_acknowledge : PeerState → Protocol → Bool
unfolding kind
may_acknowledge st command =
    not (
      is_state st PeerState.disconnecting
      || (is_state st PeerState.acknowledging_connect
          || (is_state st PeerState.disconnected || is_state st PeerState.zombie)))
    && (not (is_state st PeerState.acknowledging_disconnect)
        || kind command.header.command == Command.disconnect)

-- The end of a round, after a command that was handled: its acknowledgement is queued.
unfoldable pub finish_round : Header → Protocol → ℕ → Option Event → Session → Round
unfolding may_acknowledge queue_acknowledgement settle
finish_round d command place event s =
    let reading : Session → Reading = λ t. record {
      host = settle t;
      peer = some t.peer.incoming_peer_id;
      event = event;
      place = place;
    } in
    if not (wants_acknowledge command.header.command)
    then go_on (reading s)
    else if not d.has_sent_time
    then left (reading s)
    else if may_acknowledge s.peer.state command
    then go_on (reading (queue_acknowledgement s command d.sent_time).1)
    else go_on (reading s)

-- A command of a new client: only a request to connect is handled.
unfoldable pub finish_connect : Header → Protocol → Reading → Option Session × Host → Round
unfolding finish_round
finish_connect d command w (none, h) = left (record w { host = h })
finish_connect d command w (some t, h) = finish_round d command w.place w.event t

unfoldable pub connect_unknown : Header → Protocol → Reading → Body → Round
unfolding handle_connect finish_connect
connect_unknown d command w (Body.connect c) = finish_connect d command w (handle_connect w.host c)
connect_unknown d command w b = left w

unfoldable pub handle_unknown : Header → Protocol → Reading → Round
unfolding connect_unknown
handle_unknown d command w = connect_unknown d command w command.body

unfoldable pub handle_known :
    (Host → Host) → Header → Protocol → Received → Session → Reading → Round
unfolding handle finish_round settle
handle_known flush d command r s w =
    let o = handle flush w.event s command r in
    if o.accepted
    then finish_round d command (w.place + data_length_of command.body) o.event o.session
    else left (record w { host = settle o.session; event = o.event })

-- One round: `place` moves behind the command, then behind its data.
unfoldable pub read_command : (Host → Host) → Header → Arrival → Protocol → Reading → Round
unfolding handle_unknown handle_known focus command_size
read_command flush d a command w =
    let behind = w.place + command_size command.header.command in
    let v = record w { place = behind } in
    let r : Received = record {
      left = a.size - behind;
      bytes = λ i. some (a.bytes (behind + i));
    } in
    if ltb a.size behind then left w else elim w.peer [
      | none ↦ handle_unknown d command v
      | some i ↦ elim (focus w.host i) [
        | none ↦ left v
        | some s ↦ handle_known flush d command r s v
      ]
    ]

unfoldable pub follow : (Reading → Reading) → Round → Reading
follow next (go_on w) = next w
follow next (left w) = w

-- The loop. Each round moves forward in the datagram, so as many rounds are enough as it has bytes.
unfoldable pub read_commands : ℕ → (Host → Host) → Header → Arrival → Reading → Reading
unfolding read_command decode follow
read_commands zero flush d a w = w
read_commands (suc n) flush d a w = elim (leb (w.place + 4) a.size) [
  | false ↦ w
  | true ↦ elim (decode a.bytes w.place) [
    | none ↦ w
    | some command ↦ follow (read_commands n flush d a) (read_command flush d a command w)
  ]
]

-- The peer's address, which was the broadcast address until now, and the data that came in.
abbrev note_arrival : Arrival → Session → Session
note_arrival a s = with_peer s (record (s.peer) {
  address = s.host.received_address;
  incoming_data_total = u32 (s.peer.incoming_data_total + a.size);
})

abbrev start_reading : Host → Option ℕ → Option Event → Header → Reading
start_reading h peer event d = record { host = h; peer = peer; event = event; place = d.size }

-- The datagram of a sender, checked and read; none if it is rejected.
unfoldable pub read_checked :
    (Host → Host) → Host → Option Event → Header → Sender → Arrival → Option Reading
unfolding has_checksum read_commands settle
read_checked flush h event d rejected a = none
read_checked flush h event d unknown a =
    if has_checksum h.checksum d a 0
    then some (read_commands a.size flush d a (start_reading h none event d))
    else none
read_checked flush h event d (known s) a =
    if has_checksum h.checksum d a s.peer.connect_id
    then some (
        read_commands a.size flush d a
          (start_reading (settle (note_arrival a s)) (some s.peer.incoming_peer_id) event d))
    else none

unfoldable pub read_datagram :
    (Host → Host) → Option (Arrival → ℕ → Arrival) → Host → Option Event → Arrival → Option Reading
unfolding read_header sender_of unpack read_checked
read_datagram flush decompress h event a =
    let d = read_header (is_some h.checksum) a in
    elim (unpack decompress d a) [
      | none ↦ none
      | some b ↦ read_checked flush h event d (sender_of h d) b
    ]

abbrev has_happened : Option Event → Bool
has_happened none = false
has_happened (some e) = elim e.type [ no_event ↦ false | _ ↦ true ]

-- enet_protocol_handle_incoming_commands: true for 1, with the host and the event.
unfoldable pub handle_incoming_commands :
    (Host → Host)
    → Option (Arrival → ℕ → Arrival)
    → Host
    → Option Event
    → Arrival
    → Bool × Host × Option Event
unfolding read_datagram
handle_incoming_commands flush decompress h event a =
    let read = read_datagram flush decompress h event a in
    let answer : Bool × Host × Option Event = elim read [
      | none ↦ (false, h, event)
      | some w ↦ (has_happened w.event, w.host, w.event)
    ] in
    if ltb a.size 2 then (false, h, event) else answer
