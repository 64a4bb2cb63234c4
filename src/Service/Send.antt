-- ===== src/Service/Send.antt =====
-- Sending what waits: enet_protocol_send_outgoing_commands of src/protocol.c. The socket
-- (enet_socket_send of src/unix.c and src/win32.c), the compressor that the application set and the
-- calls of enet_host_flush are arguments: the fields of `Outside`.
use enet_revamp.Base.{
  ℕ, zero, suc, ◌+◌, Bool, true, false, not, ◌&&◌, ◌||◌, leb, if◌then◌else◌, Option, none, some,
  List, [], ◌∷◌, ◌++◌, length, is_empty, is_some, u32, sub64,
}
use enet_revamp.Time.{time_difference, time_greater_equal}
use enet_revamp.State.{OutgoingCommand, Peer, Host, Session, PeerState, is_state, Event, no_event}
use enet_revamp.Session.{focus, settle, with_peer, with_host}
use enet_revamp.Peer.Outgoing.{ping}
use enet_revamp.Handle.Sent.{remove_sent_unreliable_commands}
use enet_revamp.Sending.Datagram.{Datagram, new_datagram}
use enet_revamp.Sending.Replies.{send_acknowledgements}
use enet_revamp.Sending.Timeouts.{check_timeouts}
use enet_revamp.Sending.Fill.{check_outgoing_commands}
use enet_revamp.Service.Wire.{Wire, Outside, measure_loss, wire_of}

-- What has been sent, and how the work on one peer ends: it goes on with the next, the socket
-- failed, or there is an event.
pub data Result : Type 0 where
  next failed happened : Result

pub record Turn : Type 0 where
  pub result : Result
  pub session : Session
  pub event : Option Event
  pub wires : List Wire

abbrev add_totals : ℕ → Host → Host
add_totals n h = record h {
  total_sent_data = u32 (h.total_sent_data + n);
  total_sent_packets = u32 (h.total_sent_packets + 1);
}

abbrev settle_totals : Option ℕ → Session → Session
settle_totals none s = s
settle_totals (some n) s = with_host s (add_totals n s.host)

-- From the test for commands on: the datagram goes out. The unreliable commands that it carries are
-- freed whether the socket takes it or not.
unfoldable pub transmit :
    Outside → List OutgoingCommand → Session → Datagram → Option Event → List Wire → Turn
unfolding measure_loss wire_of remove_sent_unreliable_commands
transmit o unreliable s d event wires =
    let t =
      with_peer s (record (measure_loss s.host.service_time s.peer) {
        last_send_time = s.host.service_time;
      }) in
    let wire = wire_of o t d in
    let answer = o.socket wires wire in
    let u = remove_sent_unreliable_commands o.flush unreliable t in
    if is_empty d.parts
    then record { result = next; session = s; event = event; wires = wires }
    else record {
      result = if is_some answer then next else failed;
      session = settle_totals answer u;
      event = event;
      wires = wires ++ wire ∷ [];
    }

-- The peer has been silent for so long that it is asked for a sign of life.
unfoldable pub wants_ping : Session → Datagram → Bool
unfolding time_difference
wants_ping s d =
    is_empty s.peer.sent_reliable_commands
    && (leb s.peer.ping_interval (time_difference s.host.service_time s.peer.last_receive_time)
        && leb 4 (sub64 s.peer.mtu d.packet_size))

-- `enet_protocol_check_outgoing_commands` where there are commands, and a second time for a ping.
unfoldable pub with_ping :
    Outside → Bool → List OutgoingCommand → Session → Datagram → Option Event → List Wire → Turn
unfolding wants_ping check_outgoing_commands ping transmit
with_ping o can_ping unreliable s d event wires =
    let (w, t) = check_outgoing_commands o.flush unreliable (ping s) d in
    if can_ping && wants_ping s d
    then transmit o w.unreliable t w.datagram event wires
    else transmit o unreliable s d event wires

unfoldable pub send_commands : Outside → Session → Datagram → Option Event → List Wire → Turn
unfolding check_outgoing_commands with_ping
send_commands o s d event wires =
    let (w, t) = check_outgoing_commands o.flush [] s d in
    if is_empty s.peer.outgoing_commands && is_empty s.peer.outgoing_send_reliable_commands
    then with_ping o true [] s d event wires
    else with_ping o w.can_ping w.unreliable t w.datagram event wires

unfoldable pub acknowledge_all : Session → Session × Datagram
unfolding send_acknowledgements
acknowledge_all s =
    if is_empty s.peer.acknowledgements
    then (s, new_datagram)
    else send_acknowledgements s new_datagram

abbrev has_happened : Option Event → Bool
has_happened none = false
has_happened (some e) = elim e.type [ no_event ↦ false | _ ↦ true ]

unfoldable pub check_if_due : Bool → Session → Option Event → Bool × Option Event × Session
unfolding time_greater_equal check_timeouts
check_if_due check s event =
    if check
      && (not (is_empty s.peer.sent_reliable_commands)
          && time_greater_equal s.host.service_time s.peer.next_timeout)
    then check_timeouts s event
    else (false, event, s)

-- The body of the loop, for a peer that is not passed over.
unfoldable pub send_to_peer : Outside → Bool → Session → Option Event → List Wire → Turn
unfolding acknowledge_all check_if_due send_commands
send_to_peer o check s event wires =
    let (t, d) = acknowledge_all (with_peer s (record (s.peer) { continue_sending = false })) in
    let (lost, event', u) = check_if_due check t event in
    if lost
    then record {
      result = if has_happened event' then happened else next;
      session = u;
      event = event';
      wires = wires;
    }
    else send_commands o u d event' wires

abbrev is_passed_over : Bool → Peer → Bool
is_passed_over again p =
    is_state p.state PeerState.disconnected
    || (is_state p.state PeerState.zombie || again && not p.continue_sending)

-- The host after a turn or a pass: `more` when a peer wants another pass.
pub record Pass : Type 0 where
  pub result : Result
  pub host : Host
  pub event : Option Event
  pub wires : List Wire
  pub more : Bool

abbrev follow_turn : (Host → Option Event → List Wire → Bool → Pass) → Bool → Turn → Pass
follow_turn go more t = elim t.result [
  | next ↦ go (settle t.session) t.event t.wires (more || t.session.peer.continue_sending)
  | failed ↦ record {
    result = failed;
    host = settle t.session;
    event = t.event;
    wires = t.wires;
    more = more;
  }
  | happened ↦ record {
    result = happened;
    host = settle t.session;
    event = t.event;
    wires = t.wires;
    more = more;
  }
]

-- One pass over the last n of the peers, from number i on; `again` after the first pass.
unfoldable pub send_pass :
    Outside → Bool → Bool → ℕ → ℕ → Host → Option Event → List Wire → Bool → Pass
unfolding send_to_peer focus settle
send_pass o check again zero i h event wires more = record {
  result = next;
  host = h;
  event = event;
  wires = wires;
  more = more;
}
send_pass o check again (suc n) i h event wires more = elim (focus h i) [
  | none ↦ send_pass o check again n (i + 1) h event wires more
  | some s ↦ elim (is_passed_over again s.peer) [
    | true ↦ send_pass o check again n (i + 1) h event wires more
    | false ↦
        follow_turn (send_pass o check again n (i + 1)) more (send_to_peer o check s event wires)
  ]
]

-- The passes; the source has no bound on their number, the model has `fuel`.
unfoldable pub send_passes : ℕ → Outside → Bool → Bool → Host → Option Event → List Wire → Pass
unfolding send_pass
send_passes zero o check again h event wires = record {
  result = next;
  host = h;
  event = event;
  wires = wires;
  more = true;
}
send_passes (suc fuel) o check again h event wires =
    let p = send_pass o check again (length h.peers) 0 h event wires false in
    elim p.result [
      | next ↦ elim p.more [
        | true ↦ send_passes fuel o check true p.host p.event p.wires
        | false ↦ p
      ]
      | failed ↦ p
      | happened ↦ p
    ]

-- enet_protocol_send_outgoing_commands: `next` for 0, `failed` for -1 and `happened` for 1.
unfoldable pub send_outgoing_commands : ℕ → Outside → Host → Option Event → Bool → Pass
unfolding send_passes
send_outgoing_commands fuel o h event check = send_passes fuel o check false h event []

-- enet_host_flush, with the time that enet_time_get gives.
unfoldable pub flush : ℕ → Outside → ℕ → Host → Host
unfolding send_outgoing_commands
flush fuel o now h =
    (send_outgoing_commands fuel o (record h { service_time = now }) none false).host
