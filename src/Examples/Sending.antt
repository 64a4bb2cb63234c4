-- ===== src/Examples/Sending.antt =====
-- Examples of what a host sends: filling datagrams, timeouts and the bandwidth of its peers.
use enet_revamp.Base.{ℕ, ◌+◌, ◌≡◌, refl, inl, true, false, none, [], ◌∷◌, ◌++◌, arith, All, map}
use enet_revamp.Protocol.{Body, protocol, wants_acknowledge}
use enet_revamp.Protocol.Command
use enet_revamp.State.{OutgoingCommand, Peer}
use enet_revamp.Peer.Outgoing.{outgoing}
use enet_revamp.Sending.Datagram.{new_datagram}
use enet_revamp.Sending.Replies.{send_acknowledgements}
use enet_revamp.Sending.Replies.Conservation.{reply_part, send_acknowledgements-conserves}
use enet_revamp.Sending.Timeouts.{check_timeouts, sweep, note_timeout, is_lost, send_again}
use enet_revamp.Time.{time_less, time_difference}
use enet_revamp.Sending.Timeouts.Resent.{IsResent, check_timeouts-IsResent}
use enet_revamp.Sending.Fill.{fill, fill_datagram, start_filling}
use enet_revamp.Sending.Fill.Bounds.{InBounds, fill_datagram-InBounds}
use enet_revamp.Sending.Fill.Rounds.{fill-enough}
use enet_revamp.Sending.Fill.Line.{line}
use enet_revamp.Sending.Fill.Order.{fill_datagram-keeps_line}
use enet_revamp.Service.Bandwidth.{limit_passes, start_share, share_outgoing}
use enet_revamp.Service.Bandwidth.Passes.{limit_passes-enough}
use enet_revamp.Service.Bandwidth.Throttles.{IsThrottled, share_outgoing-IsThrottled}
use enet_revamp.Examples.Data.{session_of, blank_peer, blank_host, sent_command}

-- A peer with a ping and two reliable packets to send.
abbrev ping_command : OutgoingCommand
ping_command = outgoing (protocol (Command.ping + 128) 0xFF Body.ping) none 0 0

abbrev queued_peer : Peer
queued_peer = record blank_peer {
  outgoing_commands = ping_command ∷ [];
  outgoing_send_reliable_commands =
      record sent_command { reliable_sequence_number = 1 }
      ∷ record sent_command { reliable_sequence_number = 2 }
      ∷ [];
}

asks : wants_acknowledge sent_command.command.header.command ≡ true
unfolding wants_acknowledge
asks = refl

fill_datagram-keeps_line_example :
    line
      (fill_datagram [] (session_of queued_peer) new_datagram).peer.sent_reliable_commands
      (fill_datagram [] (session_of queued_peer) new_datagram).skipped_reliable
    ≡ line [] queued_peer.outgoing_send_reliable_commands
fill_datagram-keeps_line_example =
    fill_datagram-keeps_line [] (session_of queued_peer) new_datagram (inl refl, tt)
      ((refl, asks), ((refl, asks), tt))

fill_datagram-InBounds_example :
    InBounds 1400 (fill_datagram [] (session_of queued_peer) new_datagram).datagram
fill_datagram-InBounds_example =
    fill_datagram-InBounds [] (session_of queued_peer) new_datagram (omega arith) (omega arith, tt)
      (omega arith, (omega arith, tt))
      (record { size = omega arith; buffers = omega arith; commands = omega arith })

fill-enough_example :
    fill 9 70000 queued_peer.outgoing_commands queued_peer.outgoing_send_reliable_commands
      (start_filling [] (session_of queued_peer) new_datagram)
    ≡ fill 3 70000 queued_peer.outgoing_commands queued_peer.outgoing_send_reliable_commands
        (start_filling [] (session_of queued_peer) new_datagram)
fill-enough_example =
    fill-enough 9 70000 queued_peer.outgoing_commands queued_peer.outgoing_send_reliable_commands
      (start_filling [] (session_of queued_peer) new_datagram) (omega arith)

-- Two reliable packets were sent, the first a second ago and the other just now.
abbrev tried : ℕ → ℕ → OutgoingCommand
tried number time = record sent_command {
  reliable_sequence_number = number;
  send_attempts = 1;
  sent_time = time;
  round_trip_timeout = 500;
}

abbrev late_peer : Peer
late_peer = record blank_peer { sent_reliable_commands = tried 1 69000 ∷ tried 2 70000 ∷ [] }

not_lost : (check_timeouts (session_of late_peer) none).0 ≡ false
unfolding check_timeouts sweep note_timeout is_lost send_again time_less time_difference
not_lost = refl

check_timeouts-IsResent_example :
    IsResent 70000 late_peer (check_timeouts (session_of late_peer) none).2.peer
check_timeouts-IsResent_example = check_timeouts-IsResent (session_of late_peer) none not_lost

abbrev owing_peer : Peer
owing_peer = record blank_peer {
  acknowledgements =
      record { sent_time = 60000; command = protocol (Command.ping + 128) 0xFF Body.ping } ∷ [];
}

send_acknowledgements-conserves_example :
    (send_acknowledgements (session_of owing_peer) new_datagram).1.parts
      ++ map reply_part
          (send_acknowledgements (session_of owing_peer) new_datagram).0.peer.acknowledgements
    ≡ [] ++ map reply_part owing_peer.acknowledgements
send_acknowledgements-conserves_example =
    send_acknowledgements-conserves (session_of owing_peer) new_datagram

limit_passes-enough_example :
    limit_passes 5 70000 1000 (blank_peer ∷ []) (start_share 1000 blank_host)
    ≡ limit_passes 2 70000 1000 (blank_peer ∷ []) (start_share 1000 blank_host)
limit_passes-enough_example =
    limit_passes-enough 5 70000 1000 (blank_peer ∷ []) (start_share 1000 blank_host) (omega arith)

share_outgoing-IsThrottled_example : All IsThrottled (share_outgoing 70000 1000 blank_host)
share_outgoing-IsThrottled_example =
    share_outgoing-IsThrottled 70000 1000 blank_host
      (record { below_limit = omega arith; limit_below_scale = omega arith }, tt)
