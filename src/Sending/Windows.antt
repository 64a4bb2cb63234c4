-- ===== src/Sending/Windows.antt =====
-- The tests and the bookkeeping that enet_protocol_check_outgoing_commands of src/protocol.c applies
-- to one acknowledged command: the reliable windows of its channel, the data in transit of its peer,
-- its timeout.
use enet_revamp.Base.{
  ℕ, ◌+◌, ◌-◌, ◌*◌, ◌/◌, ◌%◌, ◌^◌, Bool, not, ◌&&◌, ◌||◌, ◌==◌, leb, ltb, if◌then◌else◌, is_some,
  is_empty, [], ◌∷◌, ◌++◌, u16, u32, set_bit, enet_max,
}
use Prim.Native.Nat.{bit_and, bit_or}
use enet_revamp.State.{OutgoingCommand, Channel, Peer, update}
use enet_revamp.Session.{channel_at, with_channel}

-- ENET_PEER_RELIABLE_WINDOWS and ENET_PEER_RELIABLE_WINDOW_SIZE.
abbrev pub reliable_windows : ℕ
reliable_windows = 16

abbrev pub reliable_window_size : ℕ
reliable_window_size = 4096

-- ENET_PEER_FREE_RELIABLE_WINDOWS.
abbrev pub free_reliable_windows : ℕ
free_reliable_windows = 8

abbrev pub window_of : OutgoingCommand → ℕ
window_of o = o.reliable_sequence_number / reliable_window_size

-- The windows of which none may be in use when a command enters window w, a mask around the wrap.
unfoldable pub window_mask : ℕ → ℕ
window_mask w =
    let all = 2 ^ (free_reliable_windows + 2) - 1 in
    bit_or (all * 2 ^ w) (all / 2 ^ (reliable_windows - w))

-- The first command of a window does not enter it: the window before is full, or a window ahead is
-- still in use.
unfoldable pub is_blocked : OutgoingCommand → Channel → Bool
unfolding window_mask
is_blocked o c =
    o.send_attempts == 0
    && (o.reliable_sequence_number % reliable_window_size == 0
        && (leb reliable_window_size
              (c.reliable_windows ((window_of o + reliable_windows - 1) % reliable_windows))
            || not (bit_and c.used_reliable_windows (window_mask (window_of o)) == 0)))

-- `channel != NULL`.
abbrev pub has_channel : OutgoingCommand → Peer → Bool
has_channel o p = ltb o.command.header.channel_id p.channel_count

-- The data in transit would pass the throttled window.
unfoldable pub is_past_window : OutgoingCommand → Peer → Bool
is_past_window o p =
    is_some o.packet
    && ltb (enet_max (u32 (p.packet_throttle * p.window_size) / 32) p.mtu)
        (u32 (p.reliable_data_in_transit + o.fragment_length))

abbrev enter : ℕ → Channel → Channel
enter w c = record c {
  used_reliable_windows = set_bit w c.used_reliable_windows;
  reliable_windows = update c.reliable_windows w (u16 (c.reliable_windows w + 1));
}

-- A command that goes out for the first time enters its window.
unfoldable pub enter_window : OutgoingCommand → Peer → Peer
unfolding set_bit
enter_window o p =
    let k = o.command.header.channel_id in
    if has_channel o p && o.send_attempts == 0
    then with_channel p k (enter (window_of o) (channel_at p k))
    else p

-- The command as it waits for its acknowledgement.
abbrev pub as_sent : ℕ → Peer → OutgoingCommand → OutgoingCommand
as_sent now p o = record o {
  send_attempts = u16 (o.send_attempts + 1);
  round_trip_timeout =
      if o.round_trip_timeout == 0
      then u32 (p.round_trip_time + 4 * p.round_trip_time_variance)
      else o.round_trip_timeout;
  sent_time = now;
}

-- An acknowledged command joins sentReliableCommands.
unfoldable pub send_reliable : ℕ → OutgoingCommand → Peer → Peer
unfolding enter_window
send_reliable now o p =
    let q = enter_window o p in
    let sent = as_sent now p o in
    record q {
      sent_reliable_commands = q.sent_reliable_commands ++ sent ∷ [];
      next_timeout =
          if is_empty q.sent_reliable_commands
          then u32 (now + sent.round_trip_timeout)
          else q.next_timeout;
      reliable_data_in_transit = u32 (q.reliable_data_in_transit + o.fragment_length);
    }
