-- ===== src/Peer/Disconnect.antt =====
-- Ending a connection from this side: enet_peer_disconnect_now, enet_peer_disconnect and
-- enet_peer_disconnect_later of src/peer.c. They call enet_host_flush, which is the argument
-- `flush`: a function on the whole host.
use enet_revamp.Base.{ℕ, ◌+◌, Bool, ◌&&◌, ◌||◌, if◌then◌else◌, none}
use enet_revamp.Protocol.{Protocol, Body, protocol, flag_acknowledge, flag_unsequenced}
use enet_revamp.Protocol.Command
use enet_revamp.State.{Host, Session, PeerState, is_state, is_connected}
use enet_revamp.Session.{with_peer, on_host}
use enet_revamp.Peer.Outgoing.{queue_outgoing_command, has_outgoing_commands}
use enet_revamp.Peer.Queues.{reset_queues}
use enet_revamp.Peer.Reset.{on_disconnect, reset}

-- The DISCONNECT command with one of the two flags.
abbrev pub disconnect_command : ℕ → ℕ → Protocol
disconnect_command flag user_data =
    protocol (Command.disconnect + flag) 0xFF (Body.disconnect user_data)

-- enet_peer_disconnect_now.
unfoldable pub disconnect_now : (Host → Host) → Session → ℕ → Session
unfolding on_host
disconnect_now flush s user_data =
    if is_state s.peer.state PeerState.disconnected
    then s
    else if is_state s.peer.state PeerState.zombie || is_state s.peer.state PeerState.disconnecting
    then reset s
    else reset (
        on_host flush (
          (queue_outgoing_command (reset_queues s) (disconnect_command flag_unsequenced user_data)
            none 0 0).1))

-- The states in which a disconnection is under way already.
abbrev pub is_leaving : PeerState → Bool
is_leaving st =
    is_state st PeerState.disconnecting
    || (is_state st PeerState.disconnected
        || (is_state st PeerState.acknowledging_disconnect || is_state st PeerState.zombie))

-- enet_peer_disconnect.
unfoldable pub disconnect : (Host → Host) → Session → ℕ → Session
unfolding on_host
disconnect flush s user_data =
    let t = reset_queues s in
    let flag = if is_connected t.peer.state then flag_acknowledge else flag_unsequenced in
    let q = (queue_outgoing_command t (disconnect_command flag user_data) none 0 0).1 in
    let u = on_disconnect q in
    if is_leaving s.peer.state
    then s
    else if is_connected q.peer.state
    then with_peer u (record (u.peer) { state = PeerState.disconnecting })
    else reset (on_host flush q)

-- enet_peer_disconnect_later.
unfoldable pub disconnect_later : (Host → Host) → Session → ℕ → Session
unfolding disconnect
disconnect_later flush s user_data =
    if is_connected s.peer.state && has_outgoing_commands s.peer
    then with_peer s
        (record (s.peer) { state = PeerState.disconnect_later; event_data = user_data })
    else disconnect flush s user_data
