-- ===== src/Service/Loop.antt =====
-- The service of a host: enet_protocol_receive_incoming_commands, enet_host_check_events and
-- enet_host_service of src/protocol.c. What the system and the application answer to their calls is
-- given by functions of the number of the call.
use enet_revamp.Base.{
  ℕ, zero, suc, ◌+◌, Bool, true, false, leb, if◌then◌else◌, Option, none, some, List, [], u32,
}
use enet_revamp.Time.{time_difference, time_greater_equal}
use enet_revamp.State.{Address, Host, Event, no_event}
use enet_revamp.Service.Dispatch.{dispatch_incoming_commands}
use enet_revamp.Service.Bandwidth.{bandwidth_throttle, throttle_interval}
use enet_revamp.Service.Wire.{Wire, Outside}
use enet_revamp.Service.Send.{Result, next, failed, happened, send_passes}
use enet_revamp.Service.Arrival.{Arrival}
use enet_revamp.Service.Receive.{handle_incoming_commands}

-- What enet_socket_receive answers: a negative length, 0, or a datagram with its sender.
pub data Answer : Type 0 where
  error nothing : Answer
  arrived : Address → Arrival → Answer

-- What enet_socket_wait answers: an error, or whether it was interrupted and whether something came.
pub data Waited : Type 0 where
  broken : Waited
  woken : Bool → Bool → Waited

-- What the application's `intercept` answers to a datagram: 1, -1 or anything else.
pub data Verdict : Type 0 where
  taken refused passed : Verdict

pub record World : Type 0 where
  pub outside : Outside
  pub decompress : Option (Arrival → ℕ → Arrival)
  pub intercept : Option (Arrival → Host → Option Event → Verdict × Host × Option Event)
  pub clock : ℕ → ℕ
  pub receive : ℕ → Answer
  pub wait : ℕ → Waited

-- The host and the event with the calls made so far and the datagrams sent.
pub record Running : Type 0 where
  pub host : Host
  pub event : Option Event
  pub clock_calls : ℕ
  pub receive_calls : ℕ
  pub wait_calls : ℕ
  pub wires : List Wire

abbrev has_happened : Option Event → Bool
has_happened none = false
has_happened (some e) = elim e.type [ no_event ↦ false | _ ↦ true ]

abbrev note_received : Address → Arrival → Running → Running
note_received address a w = record w {
  host = record (w.host) {
    received_address = address;
    total_received_data = u32 (w.host.total_received_data + a.size);
    total_received_packets = u32 (w.host.total_received_packets + 1);
  };
}

-- Whether the loop goes on after a datagram, or ends with a result.
pub data After : Type 0 where
  goes_on : Running → After
  ends : Result → Running → After

unfoldable pub handle_datagram : World → Arrival → Running → After
unfolding handle_incoming_commands
handle_datagram o a w =
    let (found, h, event) =
      handle_incoming_commands o.outside.flush o.decompress w.host w.event a in
    let v : Running = record w { host = h; event = event } in
    if found then ends happened v else goes_on v

unfoldable pub after_verdict : World → Arrival → Verdict → Running → After
unfolding handle_datagram
after_verdict o a taken w = if has_happened w.event then ends happened w else goes_on w
after_verdict o a refused w = ends failed w
after_verdict o a passed w = handle_datagram o a w

unfoldable pub intercept_datagram : World → Arrival → Running → After
unfolding after_verdict handle_datagram
intercept_datagram o a w = elim o.intercept [
  | none ↦ handle_datagram o a w
  | some callback ↦
      let (verdict, h, event) = callback a w.host w.event in
      after_verdict o a verdict (record w { host = h; event = event })
]

unfoldable pub receive_one : World → Answer → Running → After
unfolding intercept_datagram
receive_one o error w = ends failed w
receive_one o nothing w = ends next w
receive_one o (arrived address a) w = intercept_datagram o a (note_received address a w)

-- The loop of enet_protocol_receive_incoming_commands, for so many more packets.
unfoldable pub receive_packets : ℕ → World → Running → Result × Running
unfolding receive_one
receive_packets zero o w = (next, w)
receive_packets (suc n) o w =
    elim (receive_one o (o.receive w.receive_calls)
      (record w { receive_calls = w.receive_calls + 1 })) [
        | ends r v ↦ (r, v)
        | goes_on v ↦ receive_packets n o v
      ]

-- enet_protocol_receive_incoming_commands: `next` for 0, `failed` for -1 and `happened` for 1.
unfoldable pub receive_incoming_commands : World → Running → Result × Running
unfolding receive_packets
receive_incoming_commands o w = receive_packets 256 o w

-- One of the four calls of enet_host_service; the first result other than 0 is the last.
abbrev and_then : Result × Running → (Running → Result × Running) → Result × Running
and_then (next, w) go = go w
and_then (failed, w) go = (failed, w)
and_then (happened, w) go = (happened, w)

unfoldable pub send_all : ℕ → World → Running → Result × Running
unfolding send_passes
send_all fuel o w =
    let p = send_passes fuel o.outside true false w.host w.event w.wires in
    (p.result, record w { host = p.host; event = p.event; wires = p.wires })

-- enet_protocol_dispatch_incoming_commands, if there is an event to fill in.
unfoldable pub dispatch_all_for : Running → Result × Running
unfolding dispatch_incoming_commands
dispatch_all_for w = elim w.event [
  | none ↦ (next, w)
  | some e ↦
      let (found, f, h) = dispatch_incoming_commands w.host e in
      (if found then happened else next, record w { host = h; event = some f })
]

abbrev cleared : Event → Event
cleared e = record e { type = no_event; peer = none; packet = none }

-- enet_host_check_events: `failed` for -1, which it returns without an event to fill in.
unfoldable pub check_events : Host → Option Event → Result × Option Event × Host
unfolding dispatch_incoming_commands
check_events h none = (failed, none, h)
check_events h (some e) =
    let (found, f, v) = dispatch_incoming_commands h (cleared e) in
    (if found then happened else next, some f, v)

-- `host->serviceTime = enet_time_get ()`.
abbrev read_clock : World → Running → Running
read_clock o w = record w {
  host = record (w.host) { service_time = o.clock w.clock_calls };
  clock_calls = w.clock_calls + 1;
}

unfoldable pub throttle_if_due : World → Running → Running
unfolding bandwidth_throttle time_difference
throttle_if_due o w =
    if leb throttle_interval (time_difference w.host.service_time w.host.bandwidth_throttle_epoch)
    then record w {
      host = bandwidth_throttle (o.clock w.clock_calls) w.host;
      clock_calls = w.clock_calls + 1;
    }
    else w

-- The calls of one round of enet_host_service.
unfoldable pub serve : ℕ → World → Running → Result × Running
unfolding throttle_if_due send_all receive_incoming_commands dispatch_all_for
serve fuel o w =
    and_then (send_all fuel o (throttle_if_due o w)) λ a.
      and_then (receive_incoming_commands o a) λ b. and_then (send_all fuel o b) dispatch_all_for

-- How the wait of a round ends: with the result of enet_host_service, or with something to receive.
pub data Wake : Type 0 where
  gives : Result → Running → Wake
  wakes : Running → Wake

unfoldable pub after_wait : World → (Running → Wake) → Waited → Running → Wake
after_wait o again broken w = gives failed w
after_wait o again (woken true came) w = again w
after_wait o again (woken false true) w = wakes (read_clock o w)
after_wait o again (woken false false) w = gives next (read_clock o w)

-- `do ... while (waitCondition & ENET_SOCKET_WAIT_INTERRUPT)`, for so many interruptions.
unfoldable pub wait_until : ℕ → World → ℕ → Running → Wake
unfolding after_wait time_greater_equal
wait_until zero o timeout w = gives next w
wait_until (suc n) o timeout w =
    let v = read_clock o w in
    let woke =
      after_wait o (wait_until n o timeout) (o.wait v.wait_calls)
        (record v { wait_calls = v.wait_calls + 1 }) in
    if time_greater_equal v.host.service_time timeout then gives next v else woke

-- The outer loop. It lasts as long as datagrams come before the time is over, so `fuel` bounds its
-- rounds, the interruptions of a wait and the passes of a call.
unfoldable pub serve_until : ℕ → World → ℕ → Running → Result × Running
unfolding serve wait_until time_greater_equal
serve_until zero o timeout w = (next, w)
serve_until (suc n) o timeout w = and_then (serve n o w) λ v.
    elim (time_greater_equal v.host.service_time timeout) [
      | true ↦ (next, v)
      | false ↦ elim (wait_until n o timeout v) [
        | gives r u ↦ (r, u)
        | wakes u ↦ serve_until n o timeout u
      ]
    ]

abbrev start_running : Host → Option Event → Running
start_running h event = record {
  host = h;
  event = event;
  clock_calls = 0;
  receive_calls = 0;
  wait_calls = 0;
  wires = [];
}

abbrev clear_event : Option Event → Option Event
clear_event none = none
clear_event (some e) = some (cleared e)

-- enet_host_service: `next` for 0, `failed` for -1 and `happened` for 1.
unfoldable pub host_service : ℕ → World → Host → Option Event → ℕ → Result × Running
unfolding dispatch_all_for serve_until
host_service fuel o h event timeout =
    and_then (dispatch_all_for (start_running h (clear_event event)))
      λ w. let v = read_clock o w in serve_until fuel o (u32 (timeout + v.host.service_time)) v
