-- ===== src/Session.antt =====
-- Work on one peer of a host. A function of src/peer.c takes a pointer to a peer and reaches the
-- host through `peer->host`; in the model it takes a `Session`. `focus` takes the peer out of the
-- host's array, `settle` writes it back. `request_dispatch` and `leave_dispatch` are the two pieces
-- of code that enter a peer in the host's dispatch queue and take it out.
use enet_revamp.Base.{
  ℕ, true, false, if◌then◌else◌, Option, none, some, [], ◌∷◌, ◌++◌, ◌==◌, ◌&&◌, count, get_elem?,
  get_or, set, erase,
}
use enet_revamp.State.{Memory, Channel, new_channel, Peer, Host, Session}

abbrev pub with_peer : Session → Peer → Session
with_peer s p = record s { peer = p }

abbrev pub with_host : Session → Host → Session
with_host s h = record s { host = h }

abbrev pub memory : Session → Memory
memory s = s.host.memory

abbrev pub with_memory : Session → Memory → Session
with_memory s m = record s { host = record (s.host) { memory = m } }

unfoldable pub focus : Host → ℕ → Option Session
focus h i = elim (get_elem? h.peers i) [
  | none ↦ none
  | some p ↦ some (record { host = h; peer = p })
]

unfoldable pub settle : Session → Host
settle s = record (s.host) { peers = set s.host.peers s.peer.incoming_peer_id s.peer }

-- A function on the whole host, called while a peer is in focus.
unfoldable pub on_host : (Host → Host) → Session → Session
unfolding settle focus
on_host f s = elim (focus (f (settle s)) s.peer.incoming_peer_id) [ none ↦ s | some t ↦ t ]

-- `&peer->channels[k]`. C leaves an index out of range undefined, and the callers test the index
-- against `channelCount` first; the model reads a new channel there and writes nothing.
abbrev pub channel_at : Peer → ℕ → Channel
channel_at p k = get_or p.channels k new_channel

abbrev pub with_channel : Peer → ℕ → Channel → Peer
with_channel p k c = record p { channels = set p.channels k c }

-- enet_list_insert of a peer at the end of the dispatch queue. A node that is in the list already is
-- not moved but linked a second time; the pointers are then those of no list (`LinkedList.Twice`).
unfoldable pub enter_queue : ℕ → Host → Host
enter_queue i h =
    let is_free = count i h.dispatch_queue == 0 in
    record h {
      dispatch_queue = if is_free then h.dispatch_queue ++ i ∷ [] else h.dispatch_queue;
      dispatch_sound = h.dispatch_sound && is_free;
    }

-- `if (!(peer->flags & ENET_PEER_FLAG_NEEDS_DISPATCH))` the peer enters the queue and is flagged.
unfoldable pub request_dispatch : Session → Session
unfolding enter_queue
request_dispatch s = if s.peer.needs_dispatch then s else record {
  host = enter_queue s.peer.incoming_peer_id s.host;
  peer = record (s.peer) { needs_dispatch = true };
}

-- `if (peer->flags & ENET_PEER_FLAG_NEEDS_DISPATCH)` the peer leaves the queue.
unfoldable pub leave_dispatch : Session → Session
leave_dispatch s =
    if s.peer.needs_dispatch
    then record {
      host = record (s.host) {
        dispatch_queue = erase s.peer.incoming_peer_id s.host.dispatch_queue;
      };
      peer = record (s.peer) { needs_dispatch = false };
    }
    else s
