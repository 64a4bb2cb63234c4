-- ===== src/Handle/States.antt =====
-- Changing the state of a peer: enet_protocol_change_state, enet_protocol_dispatch_state,
-- enet_protocol_notify_connect and enet_protocol_notify_disconnect of src/protocol.c.
pub mod Counts
pub mod Machine
use enet_revamp.Base.{ℕ, Bool, true, false, not, ◌&&◌, leb, ltb, if◌then◌else◌, Option, none, some}
use enet_revamp.State.{
  Peer, Host, Session, PeerState, is_state, is_connected, rank, Event, EventType, connect_event,
  disconnect_event,
}
use enet_revamp.Session.{with_peer, with_host, request_dispatch}
use enet_revamp.Peer.Reset.{on_connect, on_disconnect, reset}

abbrev pub with_state : Session → PeerState → Session
with_state s st = with_peer s (record (s.peer) { state = st })

abbrev pub with_event_data : Session → ℕ → Session
with_event_data s n = with_peer s (record (s.peer) { event_data = n })

-- `host->recalculateBandwidthLimits = 1`.
abbrev pub recalculate : Session → Session
recalculate s = with_host s (record (s.host) { recalculate_bandwidth_limits = true })

-- enet_protocol_change_state.
unfoldable pub change_state : Session → PeerState → Session
unfolding on_connect on_disconnect
change_state s st = with_state (if is_connected st then on_connect s else on_disconnect s) st

-- enet_protocol_dispatch_state.
unfoldable pub dispatch_state : Session → PeerState → Session
unfolding change_state request_dispatch
dispatch_state s st = request_dispatch (change_state s st)

-- enet_protocol_notify_connect; the event is none for NULL.
unfoldable pub notify_connect : Session → Option Event → Option Event × Session
unfolding change_state dispatch_state
notify_connect s none = (
  none,
  dispatch_state (recalculate s) (
      if is_state s.peer.state PeerState.connecting
      then PeerState.connection_succeeded
      else PeerState.connection_pending),
)
notify_connect s (some e) =
    let t = change_state (recalculate s) PeerState.connected in
    (
      some (record e {
        type = connect_event;
        peer = some t.peer.incoming_peer_id;
        data_value = t.peer.event_data;
      }),
      t,
    )

abbrev is_short_lived : PeerState → Bool
is_short_lived st =
    not (is_state st PeerState.connecting) && ltb (rank st) (rank PeerState.connection_succeeded)

-- enet_protocol_notify_disconnect.
unfoldable pub notify_disconnect : Session → Option Event → Option Event × Session
unfolding dispatch_state reset
notify_disconnect s event =
    let t =
      if leb (rank PeerState.connection_pending) (rank s.peer.state) then recalculate s else s in
    if is_short_lived t.peer.state then (event, reset t) else elim event [
      | none ↦ (none, dispatch_state (with_event_data t 0) PeerState.zombie)
      | some e ↦ (
        some (record e {
          type = disconnect_event;
          peer = some t.peer.incoming_peer_id;
          data_value = 0;
        }),
        reset t,
      )
    ]
