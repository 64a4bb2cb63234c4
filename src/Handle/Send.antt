-- ===== src/Handle/Send.antt =====
-- Commands that carry a whole packet: enet_protocol_handle_send_reliable,
-- enet_protocol_handle_send_unreliable and enet_protocol_handle_send_unsequenced of
-- src/protocol.c. The first component of a result is true for 0 and false for -1.
pub mod Once
use enet_revamp.Base.{
  ℕ, ◌+◌, ◌-◌, ◌*◌, ◌%◌, Bool, true, false, not, ◌&&◌, ◌||◌, ◌==◌, leb, ltb, if◌then◌else◌, Option,
  some, u16,
}
use enet_revamp.Protocol.{Protocol, Body}
use enet_revamp.State.{Peer, Host, Session, is_connected, update}
use enet_revamp.Session.{with_peer}
use enet_revamp.Peer.Incoming.{Queued, failed, dummy, fresh, queue_incoming_command}

-- What follows a command in the datagram: the number of bytes, and the bytes.
pub record Received : Type 0 where
  pub left : ℕ
  pub bytes : ℕ → Option ℕ

-- The field `dataLength` of a command that carries data, in host order.
abbrev pub data_length_of : Body → ℕ
data_length_of (Body.send_reliable n) = n
data_length_of (Body.send_unreliable b) = b.data_length
data_length_of (Body.send_unsequenced b) = b.data_length
data_length_of (Body.send_fragment b) = b.data_length
data_length_of b = 0

-- The guards that the handlers begin with: the channel is there and the peer is connected; the data
-- are no longer than a packet may be, and all of them have arrived.
unfoldable pub is_open : Peer → Protocol → Bool
is_open p command = ltb command.header.channel_id p.channel_count && is_connected p.state

unfoldable pub has_arrived : Host → ℕ → Received → Bool
has_arrived h len r = leb len h.maximum_packet_size && leb len r.left

-- `if (enet_peer_queue_incoming_command (...) == NULL) return -1`.
unfoldable pub unless_failed : Queued × Session → Bool × Session
unless_failed (failed, s) = (false, s)
unless_failed (dummy, s) = (true, s)
unless_failed (fresh a, s) = (true, s)

abbrev pub packet_flag_reliable : ℕ
packet_flag_reliable = 1

abbrev pub packet_flag_unsequenced : ℕ
packet_flag_unsequenced = 2

abbrev pub packet_flag_unreliable_fragment : ℕ
packet_flag_unreliable_fragment = 8

unfoldable pub queue_received : Session → Protocol → Received → ℕ → Bool × Session
unfolding unless_failed
queue_received s command r flags =
    unless_failed
      (queue_incoming_command s command (some r.bytes) (data_length_of command.body) flags 0)

-- enet_protocol_handle_send_reliable.
unfoldable pub handle_send_reliable : Session → Protocol → Received → Bool × Session
unfolding is_open has_arrived queue_received
handle_send_reliable s command r =
    if not (is_open s.peer command)
    then (false, s)
    else if not (has_arrived s.host (data_length_of command.body) r)
    then (false, s)
    else queue_received s command r packet_flag_reliable

-- enet_protocol_handle_send_unreliable.
unfoldable pub handle_send_unreliable : Session → Protocol → Received → Bool × Session
unfolding is_open has_arrived queue_received
handle_send_unreliable s command r =
    if not (is_open s.peer command)
    then (false, s)
    else if not (has_arrived s.host (data_length_of command.body) r)
    then (false, s)
    else queue_received s command r 0

-- ENET_PEER_UNSEQUENCED_WINDOW_SIZE and ENET_PEER_FREE_UNSEQUENCED_WINDOWS.
abbrev pub unsequenced_window_size : ℕ
unsequenced_window_size = 1024

abbrev pub free_unsequenced_windows : ℕ
free_unsequenced_windows = 32

abbrev pub group_of : Body → ℕ
group_of (Body.send_unsequenced b) = b.unsequenced_group
group_of b = 0

-- The group lies too far ahead of the window, counted on where the 16-bit numbers have wrapped.
unfoldable pub is_far : Peer → ℕ → Bool
is_far p group =
    let wide = if ltb group p.incoming_unsequenced_group then group + 65536 else group in
    leb (p.incoming_unsequenced_group + free_unsequenced_windows * unsequenced_window_size) wide

-- The first group of the window that a group belongs to.
abbrev pub window_start : ℕ → ℕ
window_start group = group - group % unsequenced_window_size

-- The window moves on to the group's, if it is not there.
unfoldable pub move_window : Peer → ℕ → Peer
move_window p group = if window_start group == p.incoming_unsequenced_group then p else record p {
  incoming_unsequenced_group = u16 (window_start group);
  unsequenced_window = λ _. false;
}

-- The bit of the group in the window, once the command has not failed.
unfoldable pub mark_group : ℕ → Bool × Session → Bool × Session
mark_group group (false, s) = (false, s)
mark_group group (true, s) = (
  true,
  with_peer s (record (s.peer) {
    unsequenced_window = update s.peer.unsequenced_window (group % unsequenced_window_size) true;
  }),
)

-- enet_protocol_handle_send_unsequenced.
unfoldable pub handle_send_unsequenced : Session → Protocol → Received → Bool × Session
unfolding is_open has_arrived is_far move_window mark_group queue_received
handle_send_unsequenced s command r =
    let group = group_of command.body in
    let p = move_window s.peer group in
    if not (is_open s.peer command)
    then (false, s)
    else if not (has_arrived s.host (data_length_of command.body) r)
    then (false, s)
    else if is_far s.peer group
    then (true, s)
    else if p.unsequenced_window (group % unsequenced_window_size)
    then (true, s)
    else mark_group group (queue_received (with_peer s p) command r packet_flag_unsequenced)
