-- ===== src/State/Ranks.antt =====
-- The states of ENetPeerState (include/enet/enet.h) are told apart by their numbers.
use enet_revamp.Base.{ℕ, ◌≡◌, refl, sym, ap, ◌∙◌, true, eq_of_==, get_or, [], ◌∷◌}
use enet_revamp.State.Peers.{
  PeerState, rank, is_state, disconnected, connecting, acknowledging_connect, connection_pending,
  connection_succeeded, connected, disconnect_later, disconnecting, acknowledging_disconnect,
  zombie,
}

of_rank : ℕ → PeerState
of_rank n =
    get_or
      (disconnected ∷ connecting ∷ acknowledging_connect ∷ connection_pending ∷ connection_succeeded
        ∷ connected ∷ disconnect_later ∷ disconnecting ∷ acknowledging_disconnect ∷ [])
      n zombie

of_rank-rank : (st : PeerState) → of_rank (rank st) ≡ st
unfolding of_rank
of_rank-rank disconnected = refl
of_rank-rank connecting = refl
of_rank-rank acknowledging_connect = refl
of_rank-rank connection_pending = refl
of_rank-rank connection_succeeded = refl
of_rank-rank connected = refl
of_rank-rank disconnect_later = refl
of_rank-rank disconnecting = refl
of_rank-rank acknowledging_disconnect = refl
of_rank-rank zombie = refl

pub same_state : (a b : PeerState) → is_state a b ≡ true → a ≡ b
same_state a b h =
    sym (of_rank-rank a) ∙ (ap of_rank (eq_of_== (rank a) (rank b) h) ∙ of_rank-rank b)
