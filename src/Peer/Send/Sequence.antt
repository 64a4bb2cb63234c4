-- ===== src/Peer/Send/Sequence.antt =====
-- The sequence numbers of commands that are queued one after another on a channel, as
-- enet_peer_send queues the fragments of a packet (src/peer.c).
use enet_revamp.Base.{
  ℕ, ◌+◌, ◌<◌, ◌≡◌, ◌≢◌, sym, ap, ◌∙◌, List, [], ◌∷◌, ◌++◌, arith, length, u16, u32, length-set,
  get_or-set_self,
}
use mathlib.Core.List.{append_assoc, append-nil}
use enet_revamp.State.{OutgoingCommand, Channel, Session, new_channel}
use enet_revamp.Session.{channel_at}
use enet_revamp.Peer.Outgoing.{next_outgoing_reliable}
use enet_revamp.Peer.Outgoing.Numbering.{
  IsReliable, IsQueued, queued, after_reliable, setup-reliable, queued-IsQueued,
}
use enet_revamp.Peer.Send.{setup_all}

abbrev pub AllReliable : ℕ → List OutgoingCommand → Type 0
AllReliable k [] = Unit {0}
AllReliable k (o ∷ rest) = IsReliable k o × AllReliable k rest

-- Each command is queued with the number after the one before it, counted from n, and with the next
-- queue time, counted from t.
abbrev pub Numbered : ℕ → ℕ → List OutgoingCommand → List OutgoingCommand → Type 0
Numbered n t [] [] = Unit {0}
Numbered n t [] (q ∷ qs) = ⊥
Numbered n t (o ∷ rest) [] = ⊥
Numbered n t (o ∷ rest) (q ∷ qs) =
    IsQueued o q (u16 (n + 1)) 0 (u32 (t + 1)) × Numbered (u16 (n + 1)) (u32 (t + 1)) rest qs

-- Reliable commands that are queued one after another on an open channel leave in that order, on
-- the queue of reliable packets, behind what was there; they are numbered consecutively from the
-- channel's counter, modulo 2^16, and their queue times are consecutive too.
pub setup_all-Numbered :
    (k : ℕ) (commands : List OutgoingCommand) (s : Session)
    → k ≢ 0xFF
    → k < length s.peer.channels
    → AllReliable k commands
    → (stamped : List OutgoingCommand) × ((setup_all s
          commands).peer.outgoing_send_reliable_commands
        ≡ s.peer.outgoing_send_reliable_commands ++ stamped)
      × Numbered
          (channel_at s.peer k).outgoing_reliable_sequence_number
          s.host.total_queued
          commands
          stamped
unfolding setup_all
setup_all-Numbered k [] s ne lt all = ([], sym (append-nil _), tt)
setup_all-Numbered k (o ∷ rest) s ne lt (r, all) =
    let t = after_reliable s k o in
    let self : channel_at t.peer k ≡ next_outgoing_reliable (channel_at s.peer k) =
      get_or-set_self s.peer.channels k _ new_channel lt in
    let (stamped, e, n) =
      setup_all-Numbered k rest t ne
        (omega (arith, length-set s.peer.channels k (next_outgoing_reliable (channel_at s.peer k))))
        all in
    (
      queued s k o ∷ stamped,
      rw (setup-reliable s k o ne r, setup_all)
          (e ∙ append_assoc s.peer.outgoing_send_reliable_commands (queued s k o ∷ []) stamped),
      (
        queued-IsQueued s k o r,
        rw (ap (λ (c : Channel). c.outgoing_reliable_sequence_number) self) at n,
      ),
    )
