-- ===== src/Peer/Dispatch.antt =====
-- Handing queued commands to the application: enet_peer_dispatch_incoming_reliable_commands and
-- enet_peer_dispatch_incoming_unreliable_commands of src/peer.c. The source walks an intrusive list
-- with the iterators startCommand, currentCommand and droppedCommand. In the model a walk has the
-- commands before startCommand that stay in the queue (`skipped`), those from startCommand up to
-- currentCommand (`run`), those from currentCommand on (an argument of the loop), and the number of
-- commands of the queue that stand before droppedCommand (`dropped`).
pub mod InOrder
pub mod Merge
pub mod Conservation
use enet_revamp.Base.{
  ℕ, ◌+◌, ◌-◌, ◌/◌, Bool, true, false, not, ◌&&◌, ◌||◌, ◌==◌, ltb, leb, if◌then◌else◌, Option, none,
  some, List, [], ◌∷◌, ◌++◌, length, take, drop, is_empty, u16,
}
use enet_revamp.Protocol.{kind}
use enet_revamp.Protocol.Command
use enet_revamp.State.{IncomingCommand, Memory, Channel, Peer, Session}
use enet_revamp.Session.{with_peer, with_memory, memory, channel_at, with_channel, request_dispatch}
use enet_revamp.Peer.Outgoing.{window_of}
use enet_revamp.Peer.Queues.{remove_incoming_commands}

-- The window of a command lies among those that the receiver still waits for.
unfoldable pub in_window : ℕ → ℕ → Bool
in_window current number =
    leb (current / 4096) (window_of current number)
    && ltb (window_of current number) (current / 4096 + 8 - 1)

-- The state of the walk over the unreliable commands of a channel.
pub record Walk : Type 0 where
  pub skipped : List IncomingCommand
  pub run : List IncomingCommand
  pub dropped : ℕ
  pub unreliable : ℕ
  pub dispatched : List IncomingCommand
  pub moved : Bool

abbrev pub advance : Walk → IncomingCommand → Walk
advance w c = record w { run = w.run ++ c ∷ [] }

-- enet_list_move of the run to the dispatched commands, if it is not empty.
abbrev pub move_run : Walk → Walk
move_run w = record w {
  run = [];
  dispatched = w.dispatched ++ w.run;
  moved = w.moved || not (is_empty w.run);
}

abbrev pub step_over : Walk → IncomingCommand → Walk
step_over w c = record w { skipped = w.skipped ++ c ∷ []; run = [] }

-- An incomplete fragmented command of the current reliable number: the run before it is moved, and
-- the commands before it will be dropped.
unfoldable pub hold_back : Walk → IncomingCommand → Walk
hold_back w c =
    let at = length w.skipped in
    let d = if is_empty w.run then (if w.dropped == at then w.dropped else at - 1) else at in
    step_over (record (move_run w) { dropped = d }) c

-- A command of a window that has passed: it will be dropped, too.
unfoldable pub pass_by : Walk → IncomingCommand → Walk
pass_by w c = step_over (record (move_run w) { dropped = length w.skipped + 1 }) c

-- What the loop does with a command: go on, or stop at it.
unfoldable pub walk_step : ℕ → Walk → IncomingCommand → Option Walk
walk_step reliable w c =
    if kind c.command.header.command == Command.send_unsequenced
    then some (advance w c)
    else if c.reliable_sequence_number == reliable
    then (if c.fragments_remaining == 0
        then some (advance (record w { unreliable = c.unreliable_sequence_number }) c)
        else some (hold_back w c))
    else if in_window reliable c.reliable_sequence_number
    then none
    else some (pass_by w c)

unfoldable pub walk : ℕ → Walk → List IncomingCommand → Walk × List IncomingCommand
walk reliable w [] = (w, [])
walk reliable w (c ∷ rest) = elim (walk_step reliable w c) [
  | none ↦ (w, c ∷ rest)
  | some w' ↦ walk reliable w' rest
]

-- After the loop the last run is moved and everything before currentCommand will be dropped.
unfoldable pub finish_walk : Walk → Walk
finish_walk w = record (move_run w) {
  dropped = if is_empty w.run then w.dropped else length w.skipped;
}

abbrev pub start_walk : Peer → Channel → Walk
start_walk p c = record {
  skipped = [];
  run = [];
  dropped = 0;
  unreliable = c.incoming_unreliable_sequence_number;
  dispatched = p.dispatched_commands;
  moved = false;
}

abbrev pub request_if : Bool → Session → Session
request_if b s = if b then request_dispatch s else s

-- enet_peer_dispatch_incoming_unreliable_commands on channel k; `queued` is the address of
-- queuedCommand, none for NULL.
unfoldable pub dispatch_unreliable : Session → ℕ → Option ℕ → Session
dispatch_unreliable s k queued =
    let c = channel_at s.peer k in
    let (walked, rest) =
      walk c.incoming_reliable_sequence_number (start_walk s.peer c)
        c.incoming_unreliable_commands in
    let w = finish_walk walked in
    let left = w.skipped ++ rest in
    let (kept, m) = remove_incoming_commands (take w.dropped left) queued (memory s) in
    let t = with_memory s m in
    request_if w.moved (
      with_peer t
        (record (with_channel t.peer k (record c {
          incoming_unreliable_sequence_number = w.unreliable;
          incoming_unreliable_commands = kept ++ drop w.dropped left;
        })) { dispatched_commands = w.dispatched }))

-- The test that ends the walk over the reliable commands.
abbrev pub is_next : ℕ → IncomingCommand → Bool
is_next current c = c.fragments_remaining == 0 && c.reliable_sequence_number == u16 (current + 1)

-- `incomingReliableSequenceNumber` after a command is taken: a fragmented one counts for each
-- of its fragments.
abbrev pub last_number : IncomingCommand → ℕ
last_number c =
    if c.fragment_count == 0
    then c.reliable_sequence_number
    else u16 (c.reliable_sequence_number + (c.fragment_count - 1))

abbrev taken_before :
    IncomingCommand
    → List IncomingCommand × ℕ × List IncomingCommand
    → List IncomingCommand × ℕ × List IncomingCommand
taken_before c (taken, number, rest) = (c ∷ taken, number, rest)

-- The loop: the commands taken, the new sequence number and the commands left.
unfoldable pub take_in_order :
    ℕ → List IncomingCommand → List IncomingCommand × ℕ × List IncomingCommand
take_in_order current [] = ([], current, [])
take_in_order current (c ∷ rest) =
    let next = taken_before c (take_in_order (last_number c) rest) in
    if is_next current c then next else ([], current, c ∷ rest)

-- enet_peer_dispatch_incoming_reliable_commands on channel k.
unfoldable pub dispatch_reliable : Session → ℕ → Option ℕ → Session
dispatch_reliable s k queued =
    let c = channel_at s.peer k in
    let (taken, number, rest) =
      take_in_order c.incoming_reliable_sequence_number c.incoming_reliable_commands in
    let t = request_dispatch (
      with_peer s
        (record (with_channel s.peer k (record c {
          incoming_reliable_sequence_number = number;
          incoming_unreliable_sequence_number = 0;
          incoming_reliable_commands = rest;
        })) { dispatched_commands = s.peer.dispatched_commands ++ taken })) in
    if is_empty taken
    then s
    else if is_empty c.incoming_unreliable_commands
    then t
    else dispatch_unreliable t k queued
