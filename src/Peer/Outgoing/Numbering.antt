-- ===== src/Peer/Outgoing/Numbering.antt =====
-- The numbers that enet_peer_setup_outgoing_command of src/peer.c gives to a command.
use enet_revamp.Base.{
  ℕ, ◌+◌, ◌≡◌, ◌≢◌, ap, ◌∙◌, true, [], ◌∷◌, ◌++◌, arith, u16, u32, is_some, ==_of_ne,
}
use enet_revamp.Protocol.{command_size, wants_acknowledge}
use enet_revamp.State.{OutgoingCommand, Peer, Session}
use enet_revamp.Session.{channel_at, with_channel}
use enet_revamp.Peer.Outgoing.{
  setup_outgoing_command, number_command, enqueue, stamp, stamp_body, next_outgoing_reliable,
  numbered,
}

-- What a command looks like once it is queued with the given numbers: the header shows the reliable
-- one, no attempt has been made to send it, and packet and fragment are those it came with.
pub record IsQueued (o q : OutgoingCommand) (n u t : ℕ) : Type 0 where
  pub number : q.reliable_sequence_number ≡ n
  pub header : q.command.header.reliable_sequence_number ≡ n
  pub unreliable : q.unreliable_sequence_number ≡ u
  pub time : q.queue_time ≡ t
  pub attempts : q.send_attempts ≡ 0
  pub packet : q.packet ≡ o.packet
  pub offset : q.fragment_offset ≡ o.fragment_offset
  pub len : q.fragment_length ≡ o.fragment_length
  pub command : q.command.header.command ≡ o.command.header.command
  pub channel : q.command.header.channel_id ≡ o.command.header.channel_id

-- A command that wants an acknowledgement, on channel k.
pub record IsReliable (k : ℕ) (o : OutgoingCommand) : Type 0 where
  pub channel : o.command.header.channel_id ≡ k
  pub acknowledged : wants_acknowledge o.command.header.command ≡ true
  pub carries : is_some o.packet ≡ true

module _ (s : Session) (k : ℕ) (o : OutgoingCommand) where
  abbrev pub next_reliable : ℕ
  next_reliable = u16 ((channel_at s.peer k).outgoing_reliable_sequence_number + 1)

  pub queued : OutgoingCommand
  queued =
      stamp s.peer (u32 (s.host.total_queued + 1))
        (record o { reliable_sequence_number = next_reliable; unreliable_sequence_number = 0 })

  number_command-reliable :
      (p : Peer)
      → k ≢ 0xFF
      → IsReliable k o
      → number_command p o ≡ (
        with_channel p k (next_outgoing_reliable (channel_at p k)),
        numbered (u16 ((channel_at p k).outgoing_reliable_sequence_number + 1)) 0 o,
      )
  unfolding number_command
  number_command-reliable p ne r = rw (r.channel, ==_of_ne k 0xFF ne, r.acknowledged)

  enqueue-reliable :
      (p : Peer) (q : OutgoingCommand)
      → wants_acknowledge q.command.header.command ≡ true
      → is_some q.packet ≡ true
      → enqueue p q
        ≡ record p { outgoing_send_reliable_commands = p.outgoing_send_reliable_commands ++ q ∷ [] }
  unfolding enqueue
  enqueue-reliable p q a c = rw (a, c)

  abbrev charged : Peer
  charged = record (s.peer) {
    outgoing_data_total =
        u32 (
          s.peer.outgoing_data_total + (command_size o.command.header.command + o.fragment_length));
  }

  abbrev counted : Peer
  counted = with_channel charged k (next_outgoing_reliable (channel_at charged k))

  -- The session after a reliable command is queued on channel k.
  abbrev pub after_reliable : Session
  after_reliable = record {
    host = record (s.host) { total_queued = u32 (s.host.total_queued + 1) };
    peer = record counted {
      outgoing_send_reliable_commands = s.peer.outgoing_send_reliable_commands ++ queued ∷ [];
    };
  }

  pub setup-reliable : k ≢ 0xFF → IsReliable k o → setup_outgoing_command s o ≡ after_reliable
  unfolding setup_outgoing_command queued stamp stamp_body
  setup-reliable ne r =
      ap
        (λ (x : Peer × OutgoingCommand).
          let y : Session = record {
            host = record (s.host) { total_queued = u32 (s.host.total_queued + 1) };
            peer = enqueue x.0 (stamp x.0 (u32 (s.host.total_queued + 1)) x.1);
          } in
          y)
        (number_command-reliable charged ne r)
      ∙ ap
          (λ (p : Peer).
            let y : Session = record {
              host = record (s.host) { total_queued = u32 (s.host.total_queued + 1) };
              peer = p;
            } in
            y)
          (enqueue-reliable counted queued r.acknowledged r.carries)

  pub queued-IsQueued :
      IsReliable k o → IsQueued o queued next_reliable 0 (u32 (s.host.total_queued + 1))
  unfolding queued stamp
  queued-IsQueued r = ground arith
