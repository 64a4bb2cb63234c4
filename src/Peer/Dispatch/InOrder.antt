-- ===== src/Peer/Dispatch/InOrder.antt =====
-- Reliable delivery is in order and complete as far as the queue goes
-- (enet_peer_dispatch_incoming_reliable_commands of src/peer.c).
use enet_revamp.Base.{
  ℕ, ◌+◌, ◌≡◌, refl, sym, ap, ◌∙◌, true, false, List, [], ◌∷◌, ◌++◌, arith, Bool-cases, inl, inr,
  is_empty, u16, ◌<◌, length, set, length-set, get_or, get_or-set_self, Option,
}
use mathlib.Core.List.{append-nil, append_assoc}
use mathlib.Core.Path.{subst₂}
use enet_revamp.State.{IncomingCommand, Channel, Session, new_channel}
use enet_revamp.Session.{channel_at, request_dispatch, with_peer, with_channel}
use enet_revamp.Peer.Dispatch.Conservation.{
  AllReady, dispatch_unreliable-ready, dispatch_unreliable-reliable,
}
use enet_revamp.Peer.Dispatch.{is_next, last_number, take_in_order, dispatch_reliable}

-- A run of complete commands that continues the sequence from `current` and ends at `last`.
pub data InSequence : ℕ → ℕ → List IncomingCommand → Type 0 where
  done : {n : ℕ} → InSequence n n []
  next :
      {n m : ℕ} (c : IncomingCommand) {rest : List IncomingCommand}
      → c.fragments_remaining ≡ 0
      → c.reliable_sequence_number ≡ u16 (n + 1)
      → InSequence (last_number c) m rest
      → InSequence n m (c ∷ rest)

InSequence-nil : {n m : ℕ} (xs : List IncomingCommand) → InSequence n m xs → xs ≡ [] → n ≡ m
InSequence-nil [] done e = refl
InSequence-nil (c ∷ xs) s e = cc

-- No command at the head of the queue continues the sequence.
abbrev pub IsStuck : ℕ → List IncomingCommand → Type 0
IsStuck n [] = Unit {0}
IsStuck n (c ∷ rest) = is_next n c ≡ false

take_in_order_lem :
    (n : ℕ) (queue : List IncomingCommand)
    → (queue ≡ (take_in_order n queue).0 ++ (take_in_order n queue).2)
      × InSequence n (take_in_order n queue).1 (take_in_order n queue).0
      × IsStuck (take_in_order n queue).1 (take_in_order n queue).2
unfolding take_in_order
take_in_order_lem n [] = (refl, done, tt)
take_in_order_lem n (c ∷ rest) = elim (Bool-cases (is_next n c)) [
  | inl hit ↦
      let (e, s, t) = take_in_order_lem (last_number c) rest in
      rw hit (ap (◌∷◌ c) e, next c (ground arith) (ground arith) s, t)
  | inr miss ↦ rw miss (refl, done, miss)
]

is_empty-cons : (xs : List IncomingCommand) → is_empty xs ≡ true → xs ≡ []
is_empty-cons [] e = refl
is_empty-cons (x ∷ xs) e = cc

module _ (s : Session) (k : ℕ) where
  abbrev chan : Channel
  chan = channel_at s.peer k

  abbrev split : List IncomingCommand × ℕ × List IncomingCommand
  split = take_in_order chan.incoming_reliable_sequence_number chan.incoming_reliable_commands

  -- The session when the reliable commands have been handed on.
  abbrev handed : Session
  handed = request_dispatch (
      with_peer s
        (record (with_channel s.peer k (record chan {
          incoming_reliable_sequence_number = split.1;
          incoming_unreliable_sequence_number = 0;
          incoming_reliable_commands = split.2;
        })) { dispatched_commands = s.peer.dispatched_commands ++ split.0 }))

  handed-dispatched : handed.peer.dispatched_commands ≡ s.peer.dispatched_commands ++ split.0
  unfolding request_dispatch
  handed-dispatched = ground arith

  handed-channels :
      handed.peer.channels
      ≡ set s.peer.channels k (record chan {
        incoming_reliable_sequence_number = split.1;
        incoming_unreliable_sequence_number = 0;
        incoming_reliable_commands = split.2;
      })
  unfolding request_dispatch
  handed-channels = ground arith

  -- What dispatching the reliable commands of channel k has handed on, and what it leaves.
  pub record IsInOrder (t : Session) : Type 0 where
    pub taken : List IncomingCommand
    pub rest : List IncomingCommand
    pub more : List IncomingCommand
    pub queue : chan.incoming_reliable_commands ≡ taken ++ rest
    pub sequence :
        InSequence chan.incoming_reliable_sequence_number
          (channel_at t.peer k).incoming_reliable_sequence_number
          taken
    pub stuck : IsStuck (channel_at t.peer k).incoming_reliable_sequence_number rest
    pub kept : (channel_at t.peer k).incoming_reliable_commands ≡ rest
    pub dispatched : t.peer.dispatched_commands ≡ s.peer.dispatched_commands ++ (taken ++ more)
    pub ready : AllReady (channel_at t.peer k).incoming_reliable_sequence_number more

  handed_self :
      k < length s.peer.channels
      → channel_at handed.peer k ≡ record chan {
        incoming_reliable_sequence_number = split.1;
        incoming_unreliable_sequence_number = 0;
        incoming_reliable_commands = split.2;
      }
  handed_self lt =
      ap (λ (cs : List Channel). get_or cs k new_channel) handed-channels
      ∙ get_or-set_self s.peer.channels k _ new_channel lt

  nothing-IsInOrder : split.0 ≡ [] → IsInOrder s
  nothing-IsInOrder e =
      let (q, seq, stuck) =
        take_in_order_lem chan.incoming_reliable_sequence_number chan.incoming_reliable_commands in
      let same = InSequence-nil split.0 seq e in
      record {
        taken = [];
        rest = chan.incoming_reliable_commands;
        more = [];
        queue = refl;
        sequence = done;
        stuck =
            subst₂ IsStuck (sym same)
              (sym (q ∙ ap (λ (xs : List IncomingCommand). xs ++ split.2) e)) stuck;
        kept = refl;
        dispatched = sym (append-nil s.peer.dispatched_commands);
        ready = tt;
      }

  -- Dispatching the reliable commands of an open channel hands on, behind what was dispatched
  -- before, the longest front of the queue in which every command is complete and continues the
  -- sequence of the one before it, the first that of the channel; the channel's number ends at the
  -- last of them, the rest of the queue stays, and its head does not continue the sequence.
  -- Behind them come only unreliable commands that are ready under the new number.
  pub dispatch_reliable-IsInOrder :
      (queued : Option ℕ) → k < length s.peer.channels → IsInOrder (dispatch_reliable s k queued)
  unfolding dispatch_reliable
  dispatch_reliable-IsInOrder queued lt =
      let (q, seq, stuck) =
        take_in_order_lem chan.incoming_reliable_sequence_number chan.incoming_reliable_commands in
      let number = ap (λ (c : Channel). c.incoming_reliable_sequence_number) (handed_self lt) in
      let commands = ap (λ (c : Channel). c.incoming_reliable_commands) (handed_self lt) in
      elim (Bool-cases (is_empty split.0)) [
        | inl none_taken ↦ rw none_taken (nothing-IsInOrder (is_empty-cons split.0 none_taken))
        | inr some_taken ↦ elim (Bool-cases (is_empty chan.incoming_unreliable_commands)) [
          | inl idle ↦
              rw (some_taken, idle)
                (record {
                  taken = split.0;
                  rest = split.2;
                  more = [];
                  queue = q;
                  sequence = rw number seq;
                  stuck = rw number stuck;
                  kept = commands;
                  dispatched = rw append-nil handed-dispatched;
                  ready = tt;
                })
          | inr busy ↦
              let opened : k < length handed.peer.channels =
                rw handed-channels (omega (arith, length-set s.peer.channels k)) in
              let (more, front, back, e, ready, _, _) =
                dispatch_unreliable-ready handed k queued opened in
              let (n, l) = dispatch_unreliable-reliable handed k queued opened in
              rw (some_taken, busy)
                (record {
                  taken = split.0;
                  rest = split.2;
                  more = more;
                  queue = q;
                  sequence = rw (n, number) seq;
                  stuck = rw (n, number) stuck;
                  kept = l ∙ commands;
                  dispatched =
                      e
                      ∙ (ap (λ (xs : List IncomingCommand). xs ++ more) handed-dispatched
                          ∙ append_assoc s.peer.dispatched_commands split.0 more);
                  ready = rw n ready;
                })
        ]
      ]
