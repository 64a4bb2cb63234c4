-- ===== src/Peer/Dispatch/Conservation.antt =====
-- What the walk over the unreliable commands hands on, keeps and drops
-- (enet_peer_dispatch_incoming_unreliable_commands of src/peer.c).
use enet_revamp.Base.{
  ℕ, get_or, ◌≡◌, ◌⊎◌, inl, inr, refl, sym, ap, subst, ◌∙◌, Bool, ◌==◌, Option, none, some, List,
  [], ◌∷◌, ◌++◌, arith, take, drop, length, ◌<◌, get_or-set_self, Option-cases, Bool-cases,
}
use mathlib.Core.List.{append_assoc, append-nil}
use enet_revamp.Protocol.{kind}
use enet_revamp.Protocol.Command
use enet_revamp.State.{IncomingCommand, Channel, Session, new_channel}
use enet_revamp.Session.{channel_at, memory, request_dispatch}
use enet_revamp.Peer.Dispatch.Merge.{
  Merge, none_left, Merge-first, Merge-second, Merge-rest, take-drop,
}
use enet_revamp.Peer.Queues.{remove_incoming_commands}
use enet_revamp.Peer.Dispatch.{
  Walk, walk, walk_step, hold_back, pass_by, advance, finish_walk, move_run, start_walk,
  dispatch_unreliable, request_if, in_window,
}

-- A command that may be handed on while the channel's reliable number is `reliable`: it is
-- unsequenced, or it is complete and belongs to that number.
abbrev pub IsReady : ℕ → IncomingCommand → Type 0
IsReady reliable c =
    (kind c.command.header.command ≡ Command.send_unsequenced)
    ⊎ (c.reliable_sequence_number ≡ reliable) × (c.fragments_remaining ≡ 0)

abbrev pub AllReady : ℕ → List IncomingCommand → Type 0
AllReady reliable [] = Unit {0}
AllReady reliable (c ∷ rest) = IsReady reliable c × AllReady reliable rest

AllReady-append :
    (r : ℕ) (xs ys : List IncomingCommand) → AllReady r xs → AllReady r ys → AllReady r (xs ++ ys)
AllReady-append r [] ys a b = b
AllReady-append r (c ∷ xs) ys a b = (a.0, AllReady-append r xs ys a.1 b)

-- What a walk has handed on of the commands that it has seen, behind what was dispatched before, and
-- what it is about to hand on.
record IsWalk (r : ℕ) (before seen : List IncomingCommand) (w : Walk) : Type 0 where
  handed : List IncomingCommand
  dispatched : w.dispatched ≡ before ++ handed
  ready : AllReady r handed
  next : AllReady r w.run
  merged : Merge (handed ++ w.run) w.skipped seen

moved-IsWalk :
    (r : ℕ) (before seen : List IncomingCommand) (w : Walk)
    → IsWalk r before seen w
    → IsWalk r before seen (move_run w)
moved-IsWalk r before seen w i = record {
  handed = i.handed ++ w.run;
  dispatched = rw i.dispatched (append_assoc before i.handed w.run);
  ready = AllReady-append r i.handed w.run i.ready i.next;
  next = tt;
  merged = rw (append-nil (i.handed ++ w.run)) i.merged;
}

advance-IsWalk :
    (r : ℕ) (before seen : List IncomingCommand) (w : Walk) (c : IncomingCommand)
    → IsReady r c
    → IsWalk r before seen w
    → IsWalk r before (seen ++ c ∷ []) (advance w c)
advance-IsWalk r before seen w c ok i = record {
  handed = i.handed;
  dispatched = i.dispatched;
  ready = i.ready;
  next = AllReady-append r w.run (c ∷ []) i.next (ok, tt);
  merged =
      subst (λ xs. Merge xs w.skipped (seen ++ c ∷ [])) (append_assoc i.handed w.run (c ∷ []))
        (Merge-first c i.merged);
}

abbrev StepIsWalk : ℕ → List IncomingCommand → List IncomingCommand → Option Walk → Type 0
StepIsWalk r before seen none = Unit {0}
StepIsWalk r before seen (some w) = IsWalk r before seen w

module _ (r : ℕ) (before seen : List IncomingCommand) (w : Walk) (c : IncomingCommand) where
  held-IsWalk : IsWalk r before seen w → IsWalk r before (seen ++ c ∷ []) (hold_back w c)
  unfolding hold_back
  held-IsWalk i =
      let m = moved-IsWalk r before seen w i in
      record {
        handed = m.handed;
        dispatched = m.dispatched;
        ready = m.ready;
        next = tt;
        merged = Merge-second c m.merged;
      }

  passed-IsWalk : IsWalk r before seen w → IsWalk r before (seen ++ c ∷ []) (pass_by w c)
  unfolding pass_by
  passed-IsWalk i =
      let m = moved-IsWalk r before seen w i in
      record {
        handed = m.handed;
        dispatched = m.dispatched;
        ready = m.ready;
        next = tt;
        merged = Merge-second c m.merged;
      }

  complete-IsWalk :
      IsReady r c
      → IsWalk r before seen w
      → IsWalk r before
          (seen ++ c ∷ [])
          (advance (record w { unreliable = c.unreliable_sequence_number }) c)
  complete-IsWalk ok i =
      let m = advance-IsWalk r before seen w c ok i in
      record {
        handed = m.handed;
        dispatched = m.dispatched;
        ready = m.ready;
        next = m.next;
        merged = m.merged;
      }

  step-IsWalk : IsWalk r before seen w → StepIsWalk r before (seen ++ c ∷ []) (walk_step r w c)
  unfolding walk_step
  step-IsWalk i = elim (Bool-cases (kind c.command.header.command == Command.send_unsequenced)) [
    | inl u ↦ rw u (advance-IsWalk r before seen w c (inl (ground arith)) i)
    | inr u ↦ elim (Bool-cases (c.reliable_sequence_number == r)) [
      | inl e ↦ elim (Bool-cases (c.fragments_remaining == 0)) [
        | inl z ↦ rw (u, e, z) (complete-IsWalk (inr (ground arith, ground arith)) i)
        | inr z ↦ rw (u, e, z) (held-IsWalk i)
      ]
      | inr e ↦ elim (Bool-cases (in_window r c.reliable_sequence_number)) [
        | inl v ↦ rw (u, e, v) tt
        | inr v ↦ rw (u, e, v) (passed-IsWalk i)
      ]
    ]
  ]

-- A walk with the rest of its queue.
record IsCut (r : ℕ) (before queue : List IncomingCommand) (w : Walk) (rest : List IncomingCommand)
    : Type 0 where
  seen : List IncomingCommand
  whole : seen ++ rest ≡ queue
  is_walk : IsWalk r before seen w

walk-IsCut :
    (r : ℕ) (before seen : List IncomingCommand) (w : Walk) (queue : List IncomingCommand)
    → IsWalk r before seen w
    → IsCut r before (seen ++ queue) (walk r w queue).0 (walk r w queue).1
unfolding walk
walk-IsCut r before seen w [] i = record { seen = seen; whole = refl; is_walk = i }
walk-IsCut r before seen w (c ∷ rest) i = elim (Option-cases (walk_step r w c)) [
  | inl e ↦ rw (e, walk) (record { seen = seen; whole = refl; is_walk = i })
  | inr (w', e) ↦
      let after =
        walk-IsCut r before (seen ++ c ∷ []) w' rest
          (subst (StepIsWalk r before (seen ++ c ∷ [])) e (step-IsWalk r before seen w c i)) in
      rw (e, walk)
        (record {
          seen = after.seen;
          whole = after.whole ∙ append_assoc seen (c ∷ []) rest;
          is_walk = after.is_walk;
        })
]

module _ (s : Session) (k : ℕ) (queued : Option ℕ) where
  abbrev chan : Channel
  chan = channel_at s.peer k

  abbrev result : Walk × List IncomingCommand
  result =
      walk chan.incoming_reliable_sequence_number (start_walk s.peer chan)
        chan.incoming_unreliable_commands

  abbrev left : List IncomingCommand
  left = (finish_walk result.0).skipped ++ result.1

  abbrev reliable : ℕ
  reliable = chan.incoming_reliable_sequence_number

  start-IsWalk : IsWalk reliable s.peer.dispatched_commands [] (start_walk s.peer chan)
  start-IsWalk = record {
    handed = [];
    dispatched = sym (append-nil s.peer.dispatched_commands);
    ready = tt;
    next = tt;
    merged = none_left;
  }

  cut :
      IsCut reliable s.peer.dispatched_commands chan.incoming_unreliable_commands result.0 result.1
  cut =
      walk-IsCut reliable s.peer.dispatched_commands [] (start_walk s.peer chan)
        chan.incoming_unreliable_commands start-IsWalk

  finished-IsWalk : IsWalk reliable s.peer.dispatched_commands cut.seen (finish_walk result.0)
  unfolding finish_walk
  finished-IsWalk =
      let m = moved-IsWalk reliable s.peer.dispatched_commands cut.seen result.0 cut.is_walk in
      record {
        handed = m.handed;
        dispatched = m.dispatched;
        ready = m.ready;
        next = tt;
        merged = m.merged;
      }

  finished-Merge : Merge finished-IsWalk.handed left chan.incoming_unreliable_commands
  unfolding finish_walk
  finished-Merge = subst (Merge finished-IsWalk.handed left) cut.whole (
      Merge-rest result.1 (
        subst (λ xs. Merge xs (finish_walk result.0).skipped cut.seen)
          (append-nil finished-IsWalk.handed) finished-IsWalk.merged))

  request-dispatched :
      (b : Bool) (u : Session)
      → (request_if b u).peer.dispatched_commands ≡ u.peer.dispatched_commands
  unfolding request_dispatch
  request-dispatched b u = ground arith

  request-channels : (b : Bool) (u : Session) → (request_if b u).peer.channels ≡ u.peer.channels
  unfolding request_dispatch
  request-channels b u = ground arith

  -- The walk does not touch the reliable half of the channel.
  pub dispatch_unreliable-reliable :
      k < length s.peer.channels
      → ((channel_at (dispatch_unreliable s k queued).peer k).incoming_reliable_sequence_number
          ≡ chan.incoming_reliable_sequence_number)
        × ((channel_at (dispatch_unreliable s k queued).peer k).incoming_reliable_commands
            ≡ chan.incoming_reliable_commands)
  unfolding dispatch_unreliable
  dispatch_unreliable-reliable lt =
      let self =
        ap (λ (cs : List Channel). get_or cs k new_channel) (request-channels _ _)
        ∙ get_or-set_self s.peer.channels k _ new_channel lt in
      (
        ap (λ (c : Channel). c.incoming_reliable_sequence_number) self,
        ap (λ (c : Channel). c.incoming_reliable_commands) self,
      )

  -- Dispatching the unreliable commands of an open channel cuts the queue into the commands that it
  -- hands on and those that are left, both in the order of the queue; none is lost, made up or handed
  -- on twice. What it hands on comes behind what was dispatched before, and each of it is ready: it is
  -- unsequenced, or complete and of the current reliable number. Of what is left, all but `queued` are
  -- removed from a front, and a back stays.
  pub dispatch_unreliable-ready :
      k < length s.peer.channels
      → (handed front back : List IncomingCommand) × ((dispatch_unreliable s k
            queued).peer.dispatched_commands
          ≡ s.peer.dispatched_commands ++ handed)
        × AllReady chan.incoming_reliable_sequence_number handed
        × ((channel_at (dispatch_unreliable s k queued).peer k).incoming_unreliable_commands
            ≡ (remove_incoming_commands front queued (memory s)).0 ++ back)
        × Merge handed (front ++ back) chan.incoming_unreliable_commands
  unfolding dispatch_unreliable
  dispatch_unreliable-ready lt =
      let w = finished-IsWalk in
      let d = (finish_walk result.0).dropped in
      (
        w.handed,
        take d left,
        drop d left,
        request-dispatched _ _ ∙ w.dispatched,
        w.ready,
        ap (λ (cs : List Channel). (get_or cs k new_channel).incoming_unreliable_commands)
              (request-channels _ _)
            ∙ ap (λ (c : Channel). c.incoming_unreliable_commands)
                (get_or-set_self s.peer.channels k _ new_channel lt),
        subst (λ xs. Merge w.handed xs chan.incoming_unreliable_commands) (sym (take-drop d left))
            finished-Merge,
      )
