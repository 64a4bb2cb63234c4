-- ===== src/Service/Receive/Rounds.antt =====
-- The loop of enet_protocol_handle_incoming_commands (src/protocol.c) ends: each command moves it
-- forward in the datagram.
use enet_revamp.Base.{
  if_lem, ℕ, zero, suc, ◌+◌, ◌-◌, ◌≤◌, ◌<◌, ◌≡◌, refl, inl, inr, true, false, not, leb, ltb, Option,
  none, some, arith, get_or, Option-cases, Bool-cases,
}
use mathlib.Core.Option.{some-injective}
use enet_revamp.Protocol.{Protocol, Body, command_size, command_sizes, kind, wants_acknowledge}
use enet_revamp.Protocol.Decoding.{decode, decode_body}
use enet_revamp.State.{Host, Session, Event}
use enet_revamp.Session.{settle, focus}
use enet_revamp.Handle.Connect.{handle_connect}
use enet_revamp.Handle.Send.{Received, data_length_of}
use enet_revamp.Service.Arrival.{Arrival, Header}
use enet_revamp.Service.Receive.{
  handle, Reading, Round, go_on, left, finish_round, finish_connect, connect_unknown, handle_known,
  may_acknowledge, follow, read_command, read_commands,
}

decode_body-sized :
    (n : ℕ) (bytes : ℕ → ℕ) (i : ℕ) (body : Body)
    → decode_body n bytes i ≡ some body
    → 0 < get_or command_sizes n 0
unfolding decode_body
decode_body-sized zero bytes i body h = cc
decode_body-sized (suc zero) bytes i body h = omega arith
decode_body-sized (suc (suc zero)) bytes i body h = omega arith
decode_body-sized (suc (suc (suc zero))) bytes i body h = omega arith
decode_body-sized (suc (suc (suc (suc zero)))) bytes i body h = omega arith
decode_body-sized (suc (suc (suc (suc (suc zero))))) bytes i body h = omega arith
decode_body-sized (suc (suc (suc (suc (suc (suc zero)))))) bytes i body h = omega arith
decode_body-sized (suc (suc (suc (suc (suc (suc (suc zero))))))) bytes i body h = omega arith
decode_body-sized (suc (suc (suc (suc (suc (suc (suc (suc zero)))))))) bytes i body h = omega arith
decode_body-sized (suc (suc (suc (suc (suc (suc (suc (suc (suc zero))))))))) bytes i body h =
    omega arith
decode_body-sized (suc (suc (suc (suc (suc (suc (suc (suc (suc (suc zero)))))))))) bytes i body h =
    omega arith
decode_body-sized (suc (suc (suc (suc (suc (suc (suc (suc (suc (suc (suc zero))))))))))) bytes i
      body h =
    omega arith
decode_body-sized (suc (suc (suc (suc (suc (suc (suc (suc (suc (suc (suc (suc zero)))))))))))) bytes
      i body h =
    omega arith
decode_body-sized (suc (suc (suc (suc (suc (suc (suc (suc (suc (suc (suc (suc (suc n)))))))))))))
      bytes i body h =
    ground (arith, h)

-- A round that goes on is further than a place.
IsFurther : ℕ → Round → Type 0
IsFurther place (go_on w) = place < w.place
IsFurther place (left w) = Unit

left_IsFurther : (place : ℕ) (w : Reading) → IsFurther place (left w)
unfolding IsFurther
left_IsFurther place w = tt

finish_round-IsFurther :
    (place : ℕ) (d : Header) (command : Protocol) (to : ℕ) (event : Option Event) (s : Session)
    → place < to
    → IsFurther place (finish_round d command to event s)
unfolding finish_round IsFurther
finish_round-IsFurther place d command to event s h =
    if_lem (IsFurther place) (not (wants_acknowledge command.header.command)) (λ _. h)
      λ _.
        if_lem (IsFurther place) (not d.has_sent_time) (λ _. tt)
          λ _. if_lem (IsFurther place) (may_acknowledge s.peer.state command) (λ _. h) (λ _. h)

finish_connect-IsFurther :
    (place : ℕ) (d : Header) (command : Protocol) (w : Reading) (found : Option Session × Host)
    → place < w.place
    → IsFurther place (finish_connect d command w found)
unfolding finish_connect
finish_connect-IsFurther place d command w (none, g) h =
    left_IsFurther place (record w { host = g })
finish_connect-IsFurther place d command w (some t, g) h =
    finish_round-IsFurther place d command w.place w.event t h

connect_unknown-IsFurther :
    (place : ℕ) (d : Header) (command : Protocol) (w : Reading) (body : Body)
    → place < w.place
    → IsFurther place (connect_unknown d command w body)
unfolding connect_unknown
connect_unknown-IsFurther place d command w (Body.connect c) h =
    finish_connect-IsFurther place d command w (handle_connect w.host c) h
connect_unknown-IsFurther place d command w (Body.acknowledge b) h = left_IsFurther place w
connect_unknown-IsFurther place d command w (Body.verify_connect b) h = left_IsFurther place w
connect_unknown-IsFurther place d command w (Body.disconnect b) h = left_IsFurther place w
connect_unknown-IsFurther place d command w Body.ping h = left_IsFurther place w
connect_unknown-IsFurther place d command w (Body.send_reliable b) h = left_IsFurther place w
connect_unknown-IsFurther place d command w (Body.send_unreliable b) h = left_IsFurther place w
connect_unknown-IsFurther place d command w (Body.send_unsequenced b) h = left_IsFurther place w
connect_unknown-IsFurther place d command w (Body.send_fragment b) h = left_IsFurther place w
connect_unknown-IsFurther place d command w (Body.bandwidth_limit b) h = left_IsFurther place w
connect_unknown-IsFurther place d command w (Body.throttle_configure b) h = left_IsFurther place w

handle_known-IsFurther :
    (place : ℕ) (flush : Host → Host) (d : Header) (command : Protocol) (r : Received) (s : Session)
    (w : Reading)
    → place < w.place
    → IsFurther place (handle_known flush d command r s w)
unfolding handle_known
handle_known-IsFurther place flush d command r s w h =
    let o = handle flush w.event s command r in
    if_lem (IsFurther place) o.accepted
      (λ _.
        finish_round-IsFurther place d command (w.place + data_length_of command.body) o.event
          o.session (omega (arith, h)))
      (λ _. left_IsFurther place (record w { host = settle o.session; event = o.event }))

-- A round with a command of some length leaves the loop or moves forward.
read_command-IsFurther :
    (flush : Host → Host) (d : Header) (a : Arrival) (command : Protocol) (w : Reading)
    → 0 < command_size command.header.command
    → IsFurther w.place (read_command flush d a command w)
unfolding read_command
read_command-IsFurther flush d a command w sized =
    let behind = w.place + command_size command.header.command in
    let v : Reading = record w { place = behind } in
    if_lem (IsFurther w.place) (ltb a.size behind) (λ _. left_IsFurther w.place w)
      λ _. elim (Option-cases w.peer) [
        | inl e ↦
            rw e (connect_unknown-IsFurther w.place d command v command.body (omega (arith, sized)))
        | inr (i, e) ↦ elim (Option-cases (focus w.host i)) [
          | inl f ↦ rw (e, f) (left_IsFurther w.place v)
          | inr (s, f) ↦
              rw (e, f)
                (handle_known-IsFurther w.place flush d command
                  (record { left = a.size - behind; bytes = λ i. some (a.bytes (behind + i)) }) s v
                  (omega (arith, sized)))
        ]
      ]

decode-sized :
    (bytes : ℕ → ℕ) (i : ℕ) (command : Protocol)
    → decode bytes i ≡ some command
    → 0 < command_size command.header.command
unfolding decode command_size
decode-sized bytes i command h = elim (Option-cases (decode_body (kind (bytes i)) bytes i)) [
  | inl e ↦ let bad = rw (e, decode) at h in cc
  | inr (body, e) ↦
      rw (← some-injective _ _ (rw (e, decode) at h))
        (decode_body-sized (kind (bytes i)) bytes i body e)
]

-- Two ways to go on agree on a round if they agree on what is further in the datagram.
follow_same :
    (place : ℕ) (f g : Reading → Reading)
    → ((v : Reading) → place < v.place → f v ≡ g v)
    → (r : Round) → IsFurther place r
    → follow f r ≡ follow g r
unfolding follow IsFurther
follow_same place f g same (go_on w) h = same w h
follow_same place f g same (left w) h = refl

at_end : (place size : ℕ) → size - place ≤ 0 → leb (place + 4) size ≡ false
at_end place size h = ground arith

not_at_end : (place size : ℕ) → leb (place + 4) size ≡ true → place < size
not_at_end place size h = ground arith

read_commands-same :
    (n m : ℕ) (flush : Host → Host) (d : Header) (a : Arrival) (w : Reading)
    → a.size - w.place ≤ n
    → a.size - w.place ≤ m
    → read_commands n flush d a w ≡ read_commands m flush d a w
unfolding read_commands
read_commands-same zero zero flush d a w h g = refl
read_commands-same zero (suc m) flush d a w h g = rw (at_end w.place a.size h, read_commands) refl
read_commands-same (suc n) zero flush d a w h g = rw (at_end w.place a.size g, read_commands) refl
read_commands-same (suc n) (suc m) flush d a w h g = elim (Bool-cases (leb (w.place + 4) a.size)) [
  | inr e ↦ rw (e, read_commands) refl
  | inl e ↦ elim (Option-cases (decode a.bytes w.place)) [
    | inl f ↦ rw (e, f, read_commands) refl
    | inr (command, f) ↦
        rw (e, f, read_commands)
          (follow_same w.place (read_commands n flush d a) (read_commands m flush d a)
            (λ v l.
              read_commands-same n m flush d a v (omega (arith, l, h, not_at_end w.place a.size e))
                (omega (arith, l, g, not_at_end w.place a.size e)))
            (read_command flush d a command w)
            (read_command-IsFurther flush d a command w (decode-sized a.bytes w.place command f)))
  ]
]

-- The loop over the commands of a datagram ends within as many rounds as there are bytes behind the
-- place where it begins, whatever the bytes are: any larger number of rounds gives the same result.
pub read_commands-enough :
    (n : ℕ) (flush : Host → Host) (d : Header) (a : Arrival) (w : Reading)
    → a.size - w.place ≤ n
    → read_commands n flush d a w ≡ read_commands (a.size - w.place) flush d a w
read_commands-enough n flush d a w h =
    read_commands-same n (a.size - w.place) flush d a w h (omega arith)
