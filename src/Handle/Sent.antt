-- ===== src/Handle/Sent.antt =====
-- Commands that the other side has acknowledged: enet_protocol_remove_sent_unreliable_commands,
-- enet_protocol_find_sent_reliable_command and enet_protocol_remove_sent_reliable_command of
-- src/protocol.c. A search returns the command with the queue it is taken out of.
pub mod Draining
pub mod Removal
use enet_revamp.Base.{
  ℕ, ◌+◌, ◌-◌, ◌/◌, Bool, true, false, not, ◌&&◌, ◌==◌, ltb, if◌then◌else◌, Option, none, some,
  List, [], ◌∷◌, is_empty, u32, sub32, clear_bit,
}
use enet_revamp.Protocol.{kind, wants_acknowledge}
use enet_revamp.Protocol.Command
use enet_revamp.State.{
  Memory, OutgoingCommand, Channel, Peer, Host, Session, PeerState, is_state, update,
}
use enet_revamp.Packet.{release_sent}
use enet_revamp.Session.{with_peer, with_memory, memory, channel_at, with_channel}
use enet_revamp.Peer.Outgoing.{has_outgoing_commands}
use enet_revamp.Peer.Disconnect.{disconnect}

unfoldable pub release_sent_option : Option ℕ → Memory → Memory
unfolding release_sent
release_sent_option none m = m
release_sent_option (some a) m = release_sent a m

unfoldable pub release_unreliable : List OutgoingCommand → Memory → Memory
unfolding release_sent_option
release_unreliable [] m = m
release_unreliable (o ∷ rest) m = release_unreliable rest (release_sent_option o.packet m)

-- The end of enet_protocol_remove_sent_unreliable_commands and of the case DISCONNECT_LATER of
-- enet_protocol_handle_acknowledge.
unfoldable pub disconnect_if_done : (Host → Host) → Session → Session
disconnect_if_done flush s =
    if is_state s.peer.state PeerState.disconnect_later && not (has_outgoing_commands s.peer)
    then disconnect flush s s.peer.event_data
    else s

-- enet_protocol_remove_sent_unreliable_commands.
unfoldable pub remove_sent_unreliable_commands :
    (Host → Host) → List OutgoingCommand → Session → Session
unfolding release_unreliable disconnect_if_done
remove_sent_unreliable_commands flush [] s = s
remove_sent_unreliable_commands flush (o ∷ rest) s =
    disconnect_if_done flush (with_memory s (release_unreliable (o ∷ rest) (memory s)))

abbrev pub is_answer : ℕ → ℕ → OutgoingCommand → Bool
is_answer number channel_id o =
    o.reliable_sequence_number == number && o.command.header.channel_id == channel_id

abbrev pub Found : Type 0
Found = Option (OutgoingCommand × List OutgoingCommand)

abbrev behind : OutgoingCommand → Found → Found
behind o none = none
behind o (some (found, rest)) = some (found, o ∷ rest)

-- The search of sentReliableCommands.
unfoldable pub find_in_sent : List OutgoingCommand → ℕ → ℕ → Found
find_in_sent [] number channel_id = none
find_in_sent (o ∷ rest) number channel_id =
    let found = find_in_sent rest number channel_id in
    if is_answer number channel_id o then some (o, rest) else behind o found

-- enet_protocol_find_sent_reliable_command.
unfoldable pub find_sent_reliable_command : List OutgoingCommand → ℕ → ℕ → Found
find_sent_reliable_command [] number channel_id = none
find_sent_reliable_command (o ∷ rest) number channel_id =
    let found = behind o (find_sent_reliable_command rest number channel_id) in
    if not (wants_acknowledge o.command.header.command)
    then found
    else if ltb o.send_attempts 1
    then none
    else if is_answer number channel_id o
    then some (o, rest)
    else found

-- Where the command was found: `was_sent` tells sentReliableCommands from the other two queues. The
-- peer has the command taken out of its queue.
pub record Taken : Type 0 where
  pub was_sent : Bool
  pub command : OutgoingCommand
  pub peer : Peer

take_last : Peer → Found → Option Taken
take_last p none = none
take_last p (some (o, rest)) = some (record {
  was_sent = false;
  command = o;
  peer = record p { outgoing_send_reliable_commands = rest };
})

take_unsent : Peer → ℕ → ℕ → Found → Option Taken
unfolding take_last find_sent_reliable_command
take_unsent p number channel_id none =
    take_last p (find_sent_reliable_command p.outgoing_send_reliable_commands number channel_id)
take_unsent p number channel_id (some (o, rest)) =
    some (record { was_sent = false; command = o; peer = record p { outgoing_commands = rest } })

take_sent : Peer → ℕ → ℕ → Found → Option Taken
unfolding take_unsent find_sent_reliable_command
take_sent p number channel_id none =
    take_unsent p number channel_id
      (find_sent_reliable_command p.outgoing_commands number channel_id)
take_sent p number channel_id (some (o, rest)) =
    some
      (record { was_sent = true; command = o; peer = record p { sent_reliable_commands = rest } })

-- The three searches, in the source's order.
unfoldable pub take_answered : Peer → ℕ → ℕ → Option Taken
unfolding take_sent find_in_sent
take_answered p number channel_id =
    take_sent p number channel_id (find_in_sent p.sent_reliable_commands number channel_id)

-- One command less in the reliable window of its number; the 16-bit count is not zero.
unfoldable pub leave_window : ℕ → Channel → Channel
unfolding clear_bit
leave_window w c =
    let n = c.reliable_windows w in
    if ltb 0 n
    then record c {
      reliable_windows = update c.reliable_windows w (n - 1);
      used_reliable_windows =
          if n - 1 == 0 then clear_bit w c.used_reliable_windows else c.used_reliable_windows;
    }
    else c

unfoldable pub leave_reliable_window : ℕ → ℕ → Peer → Peer
unfolding leave_window
leave_reliable_window number channel_id p =
    if ltb channel_id p.channel_count
    then with_channel p channel_id (leave_window (number / 4096) (channel_at p channel_id))
    else p

abbrev pub less_in_transit : Bool → OutgoingCommand → Peer → Peer
less_in_transit was_sent o p = elim o.packet [
  | none ↦ p
  | some a ↦
      if was_sent
      then record p {
        reliable_data_in_transit = sub32 p.reliable_data_in_transit o.fragment_length;
      }
      else p
]

-- The timeout of the command at the front of sentReliableCommands, if there is one.
unfoldable pub next_timeout_after : List OutgoingCommand → ℕ → ℕ
next_timeout_after [] time = time
next_timeout_after (o ∷ rest) time = u32 (o.sent_time + o.round_trip_timeout)

unfoldable pub finish_removal : Session → ℕ → ℕ → Option Taken → ℕ × Session
unfolding leave_reliable_window release_sent_option next_timeout_after
finish_removal s number channel_id none = (Command.none, s)
finish_removal s number channel_id (some t) =
    let p = less_in_transit t.was_sent t.command (leave_reliable_window number channel_id t.peer) in
    (
      kind t.command.command.header.command,
      with_peer (with_memory s (release_sent_option t.command.packet (memory s)))
          (record p { next_timeout = next_timeout_after p.sent_reliable_commands p.next_timeout }),
    )

-- enet_protocol_remove_sent_reliable_command: the number of the command that was removed.
unfoldable pub remove_sent_reliable_command : Session → ℕ → ℕ → ℕ × Session
unfolding finish_removal take_answered
remove_sent_reliable_command s number channel_id =
    finish_removal s number channel_id (take_answered s.peer number channel_id)
