-- ===== src/Peer/Queues.antt =====
-- Emptying a peer's queues: enet_peer_reset_outgoing_commands, enet_peer_remove_incoming_commands,
-- enet_peer_reset_incoming_commands and enet_peer_reset_queues of src/peer.c.
pub mod Ownership
use enet_revamp.Base.{
  ℕ, zero, suc, ◌+◌, Bool, true, false, ◌&&◌, ◌==◌, ltb, not, if◌then◌else◌, Option, none, some,
  List, [], ◌∷◌, ◌++◌, map, take, drop, is_empty,
}
use enet_revamp.State.{Memory, OutgoingCommand, IncomingCommand, Channel, Peer, Session}
use enet_revamp.Packet.{release_option, release_all}
use enet_revamp.Session.{with_peer, with_memory, memory, leave_dispatch}

-- enet_peer_reset_outgoing_commands: the queue is left empty; what remains is the memory.
unfoldable pub reset_outgoing_commands : List OutgoingCommand → Memory → Memory
unfolding release_option
reset_outgoing_commands [] m = m
reset_outgoing_commands (o ∷ rest) m = reset_outgoing_commands rest (release_option o.packet m)

abbrev pub is_excluded : Option ℕ → IncomingCommand → Bool
is_excluded none c = false
is_excluded (some a) c = c.address == a

-- enet_peer_remove_incoming_commands over the commands from startCommand up to endCommand, less the
-- excluded one: the commands that stay, and the memory.
unfoldable pub remove_incoming_commands :
    List IncomingCommand → Option ℕ → Memory → List IncomingCommand × Memory
unfolding release_option
remove_incoming_commands [] excluded m = ([], m)
remove_incoming_commands (c ∷ rest) excluded m =
    let (kept, m') =
      remove_incoming_commands rest excluded
        (if is_excluded excluded c then m else release_option c.packet m) in
    (if is_excluded excluded c then c ∷ kept else kept, m')

-- enet_peer_reset_incoming_commands.
unfoldable pub reset_incoming_commands : List IncomingCommand → Memory → Memory
unfolding remove_incoming_commands
reset_incoming_commands queue m = (remove_incoming_commands queue none m).1

-- The loop over the first `channelCount` channels.
unfoldable pub reset_channels : ℕ → List Channel → Memory → Memory
unfolding reset_incoming_commands
reset_channels zero channels m = m
reset_channels (suc n) [] m = m
reset_channels (suc n) (c ∷ rest) m = reset_channels n rest (
    reset_incoming_commands c.incoming_unreliable_commands
      (reset_incoming_commands c.incoming_reliable_commands m))

-- The memory after the queues of a peer are emptied, in the source's order.
unfoldable pub reset_memory : Peer → Memory → Memory
unfolding reset_outgoing_commands reset_incoming_commands reset_channels
reset_memory p m =
    let sent = reset_outgoing_commands p.sent_reliable_commands m in
    let plain = reset_outgoing_commands p.outgoing_commands sent in
    let reliable = reset_outgoing_commands p.outgoing_send_reliable_commands plain in
    let dispatched = reset_incoming_commands p.dispatched_commands reliable in
    reset_channels p.channel_count p.channels dispatched

abbrev pub without_queues : Peer → Peer
without_queues p = record p {
  channels = [];
  channel_count = 0;
  acknowledgements = [];
  sent_reliable_commands = [];
  outgoing_send_reliable_commands = [];
  outgoing_commands = [];
  dispatched_commands = [];
}

-- enet_peer_reset_queues.
unfoldable pub reset_queues : Session → Session
unfolding leave_dispatch reset_memory
reset_queues s =
    let t = leave_dispatch s in
    with_peer (with_memory t (reset_memory t.peer (memory t))) (without_queues t.peer)
