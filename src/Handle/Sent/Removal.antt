-- ===== src/Handle/Sent/Removal.antt =====
-- What the removal of an acknowledged command leaves alone: the state and the bandwidth of the peer,
-- and the counters of the host. Code: enet_protocol_remove_sent_reliable_command of src/protocol.c.
use enet_revamp.Base.{ℕ, ◌≡◌, refl, Option, none, some, arith}
use enet_revamp.State.{Peer, Session}
use enet_revamp.Handle.States.Counts.{IsCounted}
use enet_revamp.Handle.Sent.{
  remove_sent_reliable_command, finish_removal, take_answered, take_sent, take_unsent, take_last,
  leave_reliable_window, Taken, Found,
}

-- A peer that is in the same state with the same parameters of its connection.
unfoldable pub IsAlike : Peer → Peer → Type 0
IsAlike p q =
    (q.state ≡ p.state)
    × (q.incoming_bandwidth ≡ p.incoming_bandwidth)
    × (q.mtu ≡ p.mtu)
    × (q.window_size ≡ p.window_size)
    × (q.channel_count ≡ p.channel_count)

unfoldable pub IsAlikeTaken : Peer → Option Taken → Type 0
unfolding IsAlike
IsAlikeTaken p none = IsAlike p p
IsAlikeTaken p (some t) = IsAlike p t.peer

take_last-IsAlike : (p : Peer) (f : Found) → IsAlikeTaken p (take_last p f)
unfolding IsAlikeTaken IsAlike take_last
take_last-IsAlike p none = (refl, refl, refl, refl, refl)
take_last-IsAlike p (some (o, rest)) = (refl, refl, refl, refl, refl)

take_unsent-IsAlike : (p : Peer) (n c : ℕ) (f : Found) → IsAlikeTaken p (take_unsent p n c f)
unfolding IsAlikeTaken IsAlike take_unsent
take_unsent-IsAlike p n c none = take_last-IsAlike p _
take_unsent-IsAlike p n c (some (o, rest)) = (refl, refl, refl, refl, refl)

take_sent-IsAlike : (p : Peer) (n c : ℕ) (f : Found) → IsAlikeTaken p (take_sent p n c f)
unfolding IsAlikeTaken IsAlike take_sent
take_sent-IsAlike p n c none = take_unsent-IsAlike p n c _
take_sent-IsAlike p n c (some (o, rest)) = (refl, refl, refl, refl, refl)

finish_removal-IsAlike :
    (s : Session) (n c : ℕ) (t : Option Taken)
    → IsAlikeTaken s.peer t
    → IsAlike s.peer (finish_removal s n c t).1.peer
unfolding IsAlikeTaken IsAlike finish_removal leave_reliable_window
finish_removal-IsAlike s n c none h = h
finish_removal-IsAlike s n c (some t) h = ground arith

finish_removal-IsCounted :
    (s : Session) (n c : ℕ) (t : Option Taken)
    → IsAlikeTaken s.peer t
    → IsCounted s (finish_removal s n c t).1
unfolding IsAlikeTaken IsAlike finish_removal leave_reliable_window IsCounted
finish_removal-IsCounted s n c none h = ground arith
finish_removal-IsCounted s n c (some t) h = ground arith

pub remove_sent_reliable_command-IsAlike :
    (s : Session) (n c : ℕ) → IsAlike s.peer (remove_sent_reliable_command s n c).1.peer
unfolding remove_sent_reliable_command take_answered
remove_sent_reliable_command-IsAlike s n c =
    finish_removal-IsAlike s n c _ (take_sent-IsAlike s.peer n c _)

pub remove_sent_reliable_command-IsCounted :
    (s : Session) (n c : ℕ) → IsCounted s (remove_sent_reliable_command s n c).1
unfolding remove_sent_reliable_command take_answered
remove_sent_reliable_command-IsCounted s n c =
    finish_removal-IsCounted s n c _ (take_sent-IsAlike s.peer n c _)
