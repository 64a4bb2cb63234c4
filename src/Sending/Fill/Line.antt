-- ===== src/Sending/Fill/Line.antt =====
-- The acknowledged packets of a peer as a line: those sent, then those that wait; and what the steps
-- of enet_protocol_check_outgoing_commands (src/protocol.c) do to it.
use mathlib.Core.List.{append-nil, append_assoc}
use enet_revamp.Base.{
  if_lem, clash, ℕ, ◌≡◌, ◌⊎◌, refl, sym, ap, ◌∙◌, inl, inr, Bool, true, false, some, List, [], ◌∷◌,
  ◌++◌, map, select, is_some, ◌&&◌, ◌==◌, if◌then◌else◌, Bool-cases,
}
use mathlib.Core.Option.{some-injective}
use enet_revamp.Time.{time_less}
use enet_revamp.Protocol.{Protocol, wants_acknowledge}
use enet_revamp.State.{OutgoingCommand, Peer}
use enet_revamp.Sending.Windows.{as_sent, send_reliable, enter_window, has_channel}
use enet_revamp.Sending.Fill.{Filling, Pick, pick, skip, leave, step_throttle, is_first}
use enet_revamp.Sending.Fill.Walk.{Picked, asked}

abbrev pub has_packet : OutgoingCommand → Bool
has_packet o = is_some o.packet

abbrev pub commands : List OutgoingCommand → List Protocol
commands = map (λ o. o.command)

-- A command of outgoingSendReliableCommands.
abbrev pub IsReliablePacket : OutgoingCommand → Type 0
IsReliablePacket o = (has_packet o ≡ true) × (wants_acknowledge o.command.header.command ≡ true)

-- A command of outgoingCommands: it has no packet or asks for no acknowledgement.
abbrev pub IsPlain : OutgoingCommand → Type 0
IsPlain o = (has_packet o ≡ false) ⊎ (wants_acknowledge o.command.header.command ≡ false)

-- The commands with packets that wait for an acknowledgement, and behind them those of a queue.
abbrev pub line : List OutgoingCommand → List OutgoingCommand → List Protocol
line sent queue = commands (select has_packet sent) ++ commands queue

-- select and map at the end of a list.
commands-append : (xs ys : List OutgoingCommand) → commands (xs ++ ys) ≡ commands xs ++ commands ys
commands-append [] ys = refl
commands-append (x ∷ xs) ys = ap (λ l. x.command ∷ l) (commands-append xs ys)

select-append :
    (test : OutgoingCommand → Bool) (xs ys : List OutgoingCommand)
    → select test (xs ++ ys) ≡ select test xs ++ select test ys
select-append test [] ys = refl
select-append test (x ∷ xs) ys = elim (Bool-cases (test x)) [
  | inl h ↦ rw h (ap (λ l. x ∷ l) (select-append test xs ys))
  | inr h ↦ rw h (select-append test xs ys)
]

enter_window-sent :
    (o : OutgoingCommand) (p : Peer)
    → (enter_window o p).sent_reliable_commands ≡ p.sent_reliable_commands
unfolding enter_window
enter_window-sent o p =
    if_lem (λ (q : Peer). q.sent_reliable_commands ≡ p.sent_reliable_commands)
      (has_channel o p && o.send_attempts == 0) (λ _. refl) (λ _. refl)

-- A command that is sent with a packet joins the line, any other one does not.
sent_last :
    (sent : List OutgoingCommand) (o : OutgoingCommand)
    → commands (select has_packet (sent ++ o ∷ []))
      ≡ commands (select has_packet sent) ++ commands (select has_packet (o ∷ []))
sent_last sent o =
    ap commands (select-append has_packet sent (o ∷ []))
    ∙ commands-append (select has_packet sent) (select has_packet (o ∷ []))

sent-packet :
    (now : ℕ) (o : OutgoingCommand) (p : Peer)
    → has_packet o ≡ true
    → commands (select has_packet (send_reliable now o p).sent_reliable_commands)
      ≡ commands (select has_packet p.sent_reliable_commands) ++ o.command ∷ []
unfolding send_reliable
sent-packet now o p h =
    rw (enter_window-sent o p) (sent_last p.sent_reliable_commands (as_sent now p o) ∙ rw h refl)

sent-plain :
    (now : ℕ) (o : OutgoingCommand) (p : Peer)
    → has_packet o ≡ false
    → commands (select has_packet (send_reliable now o p).sent_reliable_commands)
      ≡ commands (select has_packet p.sent_reliable_commands)
unfolding send_reliable
sent-plain now o p h =
    rw (enter_window-sent o p)
      (sent_last p.sent_reliable_commands (as_sent now p o) ∙ rw h (append-nil _))

pub step_throttle-sent :
    (o : OutgoingCommand) (p : Peer)
    → (step_throttle o p).sent_reliable_commands ≡ p.sent_reliable_commands
unfolding step_throttle
step_throttle-sent o p =
    if_lem (λ (q : Peer). q.sent_reliable_commands ≡ p.sent_reliable_commands) (is_first o)
      (λ _. refl) (λ _. refl)

-- What a pick says of its origin: the head of the queue of reliable packets, or not.
pub pick-queue :
    (plain reliable : List OutgoingCommand) (k : Pick)
    → pick plain reliable ≡ some k
    → reliable ≡ (if k.from_reliable then k.command ∷ k.reliable else k.reliable)
unfolding pick
pick-queue [] [] k e = cc
pick-queue [] (c ∷ reliable) k e = rw (← some-injective _ _ e) refl
pick-queue (o ∷ plain) [] k e = rw (← some-injective _ _ e) refl
pick-queue (o ∷ plain) (c ∷ reliable) k e =
    elim (Bool-cases (time_less c.queue_time o.queue_time)) [
      | inl h ↦ rw (← some-injective _ _ (rw h at e)) refl
      | inr h ↦ rw (← some-injective _ _ (rw h at e)) refl
    ]

-- A command that stays: the line is unchanged, whichever queue it came from.
pub left_line :
    (k : Pick) (w : Filling) (reliable : List OutgoingCommand)
    → reliable ≡ (if k.from_reliable then k.command ∷ k.reliable else k.reliable)
    → (leave k w).skipped_reliable ++ k.reliable ≡ w.skipped_reliable ++ reliable
unfolding leave
left_line k w reliable e = rw e (by_origin k.from_reliable)
  where
    by_origin :
        (b : Bool)
        → (if b then skip [] (k.command ∷ []) w else skip (k.command ∷ []) [] w).skipped_reliable
            ++ k.reliable
          ≡ w.skipped_reliable ++ (if b then k.command ∷ k.reliable else k.reliable)
    by_origin true = append_assoc w.skipped_reliable (k.command ∷ []) k.reliable
    by_origin false = rw (append-nil w.skipped_reliable) refl

pub leave-sent :
    (k : Pick) (w : Filling)
    → (leave k w).peer.sent_reliable_commands ≡ w.peer.sent_reliable_commands
unfolding leave
leave-sent k w =
    if_lem (λ (v : Filling). v.peer.sent_reliable_commands ≡ w.peer.sent_reliable_commands)
      k.from_reliable (λ _. refl) (λ _. refl)

-- The command of the round stays and the queue is given up.
pub given_up_line :
    (k : Pick) (w : Filling) (reliable : List OutgoingCommand)
    → reliable ≡ (if k.from_reliable then k.command ∷ k.reliable else k.reliable)
    → line
        (leave k w).peer.sent_reliable_commands
        (((leave k w).skipped_reliable ++ k.reliable) ++ [])
      ≡ line w.peer.sent_reliable_commands (w.skipped_reliable ++ reliable)
given_up_line k w reliable e =
    rw
      (
        append-nil ((leave k w).skipped_reliable ++ k.reliable),
        left_line k w reliable e,
        leave-sent k w,
      )
      refl

rest_empty :
    (k : Pick) (reliable : List OutgoingCommand)
    → reliable ≡ (if k.from_reliable then k.command ∷ k.reliable else k.reliable)
    → reliable ≡ []
    → k.reliable ≡ []
rest_empty k reliable e h = by_origin k.from_reliable (sym e ∙ h)
  where
    by_origin :
        (b : Bool) → (if b then k.command ∷ k.reliable else k.reliable) ≡ [] → k.reliable ≡ []
    by_origin true g = cc
    by_origin false g = g

-- The queue of reliable packets is as it was as long as commands are taken from it; then it is
-- given up. The phase stays what it is when commands are taken from the queues.
abbrev pub Phase : Filling → List OutgoingCommand → Type 0
Phase w reliable = ((w.window_wrap ≡ false) × (w.skipped_reliable ≡ [])) ⊎ (reliable ≡ [])

pub later :
    (k : Pick) (w : Filling) (reliable : List OutgoingCommand)
    → reliable ≡ (if k.from_reliable then k.command ∷ k.reliable else k.reliable)
    → Phase w reliable
    → Phase w k.reliable
later k w reliable e (inl h) = inl h
later k w reliable e (inr h) = inr (rest_empty k reliable e h)

module _ (k : Pick) (w : Filling) (reliable : List OutgoingCommand) where
  taken_line :
      (sent : List OutgoingCommand)
      → reliable ≡ k.command ∷ k.reliable
      → Phase w reliable
      → commands (select has_packet sent)
        ≡ commands (select has_packet w.peer.sent_reliable_commands) ++ k.command.command ∷ []
      → line sent (w.skipped_reliable ++ k.reliable)
        ≡ line w.peer.sent_reliable_commands (w.skipped_reliable ++ reliable)
  taken_line sent e (inr h) g = let bad : k.command ∷ k.reliable ≡ [] = sym e ∙ h in cc
  taken_line sent e (inl (wrap, skipped)) g =
      rw (g, e, skipped)
        (append_assoc (commands (select has_packet w.peer.sent_reliable_commands))
          (k.command.command ∷ []) (commands k.reliable))

  origin :
      reliable ≡ (if k.from_reliable then k.command ∷ k.reliable else k.reliable)
      → Picked IsPlain IsReliablePacket k
      → ((has_packet k.command ≡ true) × (asked k ≡ true) × (reliable ≡ k.command ∷ k.reliable))
        ⊎ (IsPlain k.command × (reliable ≡ k.reliable))
  origin e (inl (from, r), _, _) = inl (r.0, r.1, (rw from at e))
  origin e (inr (from, q), _, _) = inr (q, (rw from at e))

  pub sent_line :
      (now : ℕ)
      → reliable ≡ (if k.from_reliable then k.command ∷ k.reliable else k.reliable)
      → Picked IsPlain IsReliablePacket k
      → Phase w reliable
      → asked k ≡ true
      → line
          (send_reliable now k.command w.peer).sent_reliable_commands
          (w.skipped_reliable ++ k.reliable)
        ≡ line w.peer.sent_reliable_commands (w.skipped_reliable ++ reliable)
  sent_line now e picked phase a = elim (origin e picked) [
    | inl (packet, _, queue) ↦
        taken_line (send_reliable now k.command w.peer).sent_reliable_commands queue phase
          (sent-packet now k.command w.peer packet)
    | inr (inl no_packet, queue) ↦ rw (sent-plain now k.command w.peer no_packet, queue) refl
    | inr (inr no_ack, queue) ↦ absurd (clash (asked k) a no_ack)
  ]

  pub unasked_queue :
      reliable ≡ (if k.from_reliable then k.command ∷ k.reliable else k.reliable)
      → Picked IsPlain IsReliablePacket k
      → asked k ≡ false
      → reliable ≡ k.reliable
  unasked_queue e picked a = elim (origin e picked) [
    | inl (_, b, _) ↦ absurd (clash (asked k) b a)
    | inr (_, queue) ↦ queue
  ]
