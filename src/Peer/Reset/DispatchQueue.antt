-- ===== src/Peer/Reset/DispatchQueue.antt =====
-- The dispatch queue of a host and the flag of a peer in it (src/peer.c), and what a reset forgets.
use enet_revamp.Base.{
  ℕ, suc, ◌<◌, ◌==◌, sym, ap, subst, List, ◌++◌, inl, inr, Bool-cases, eq_of_==, ◌≡◌, ◌≢◌, true,
  false, if◌then◌else◌, arith, count, count-append, count-erase_self, count-erase_ne, [], ◌∷◌,
}
use enet_revamp.State.{Session}
use enet_revamp.LinkedList.{Links, insert}
use enet_revamp.LinkedList.Refinement.{Represents}
use enet_revamp.LinkedList.Twice.{insert_again}
use enet_revamp.Session.{enter_queue, request_dispatch, leave_dispatch}
use enet_revamp.Peer.Queues.{reset_queues}
use enet_revamp.Peer.Reset.{on_disconnect, reset}

-- The peer stands in its host's dispatch queue once if it is flagged, and not at all if it is not.
abbrev pub IsCoherent : Session → Type 0
IsCoherent s =
    count s.peer.incoming_peer_id s.host.dispatch_queue ≡ (if s.peer.needs_dispatch then 1 else 0)

pub request_dispatch-IsCoherent : (s : Session) → IsCoherent s → IsCoherent (request_dispatch s)
unfolding request_dispatch enter_queue
request_dispatch-IsCoherent s h = ground (
  arith,
  count-append s.peer.incoming_peer_id s.host.dispatch_queue (s.peer.incoming_peer_id ∷ []),
)

-- Emptying the queues of a coherent peer takes it off the dispatch queue and clears its flag, and
-- every other peer stands in the queue as often as before.
pub reset_queues-IsCoherent :
    (s : Session) (j : ℕ)
    → IsCoherent s
    → j ≢ s.peer.incoming_peer_id
    → (count s.peer.incoming_peer_id (reset_queues s).host.dispatch_queue ≡ 0)
      × ((reset_queues s).peer.needs_dispatch ≡ false)
      × (count j (reset_queues s).host.dispatch_queue ≡ count j s.host.dispatch_queue)
unfolding reset_queues leave_dispatch
reset_queues-IsCoherent s j h ne = ground (
  arith,
  count-erase_self s.peer.incoming_peer_id s.host.dispatch_queue,
  count-erase_ne s.peer.incoming_peer_id j s.host.dispatch_queue,
)

-- The nodes of the peers in a dispatch queue: 0 is the sentinel, and the peer with index i has the
-- node i + 1.
abbrev pub nodes : List ℕ → List ℕ
nodes [] = []
nodes (i ∷ rest) = suc i ∷ nodes rest

-- A queue in which a peer stands is cut at that peer.
nodes-cut :
    (i : ℕ) (queue : List ℕ)
    → 0 < count i queue
    → (front back : List ℕ) × (nodes queue ≡ front ++ suc i ∷ back)
nodes-cut i [] h = absurd (omega (arith, h))
nodes-cut i (j ∷ rest) h = elim (Bool-cases (i == j)) [
  | inl e ↦ ([], nodes rest, ap (λ n. suc n ∷ nodes rest) (sym (eq_of_== i j e)))
  | inr e ↦
      let (front, back, q) = nodes-cut i rest (ground arith) in
      (suc j ∷ front, back, ap (λ xs. suc j ∷ xs) q)
]

reset-queue : (s : Session) → (reset s).host.dispatch_queue ≡ s.host.dispatch_queue
unfolding reset on_disconnect reset_queues leave_dispatch
reset-queue s = ground arith

reset-again :
    (s : Session)
    → IsCoherent s
    → s.peer.needs_dispatch ≡ true
    → ((reset s).peer.needs_dispatch ≡ false)
      × ((request_dispatch (reset s)).host.dispatch_sound ≡ false)
unfolding reset on_disconnect reset_queues leave_dispatch request_dispatch enter_queue
reset-again s h e = ground arith

-- A peer that is reset while it stands in the dispatch queue stays there with its flag cleared, so
-- the next event that it has to report links it in again, after which the queue is not sound: where
-- the pointers of the nodes were those of the queue, they are then those of no list.
pub reset_breaks_queue :
    (s : Session) (h : Links) (ys : List ℕ)
    → IsCoherent s
    → s.peer.needs_dispatch ≡ true
    → Represents h 0 (nodes s.host.dispatch_queue)
    → ((reset s).host.dispatch_queue ≡ s.host.dispatch_queue)
      × ((reset s).peer.needs_dispatch ≡ false)
      × ((request_dispatch (reset s)).host.dispatch_sound ≡ false)
      × (¬ Represents (insert 0 (suc s.peer.incoming_peer_id) h) 0 ys)
reset_breaks_queue s h ys coherent e r =
    let (flag, sound) = reset-again s coherent e in
    let (front, back, q) =
      nodes-cut s.peer.incoming_peer_id s.host.dispatch_queue (ground (arith, coherent, e)) in
    (
      reset-queue s,
      flag,
      sound,
      insert_again h 0 (suc s.peer.incoming_peer_id) front back ys (subst (Represents h 0) q r),
    )

-- A reset forgets all of a peer but its identity: two peers with the same index, session numbers
-- and address, on hosts of the same MTU, are equal after it.
pub reset_forgets :
    (s t : Session)
    → s.peer.incoming_peer_id ≡ t.peer.incoming_peer_id
    → s.peer.outgoing_session_id ≡ t.peer.outgoing_session_id
    → s.peer.incoming_session_id ≡ t.peer.incoming_session_id
    → s.peer.address ≡ t.peer.address
    → s.host.mtu ≡ t.host.mtu
    → (reset s).peer ≡ (reset t).peer
unfolding reset on_disconnect reset_queues leave_dispatch
reset_forgets s t a b c d e = ground arith
