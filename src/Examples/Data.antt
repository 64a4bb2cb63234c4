-- ===== src/Examples/Data.antt =====
-- The data of the examples: a connected peer with two channels, its host, packets and commands.
use enet_revamp.Base.{ℕ, ◌+◌, true, false, ◌==◌, if◌then◌else◌, Option, none, some, [], ◌∷◌, ltb}
use enet_revamp.Protocol.{Body, protocol}
use enet_revamp.Protocol.Command
use enet_revamp.State.{
  Packet, Memory, OutgoingCommand, IncomingCommand, Peer, Host, Session, Address, connected,
  new_channel, Event, no_event,
}
use enet_revamp.Packet.{new_packet}
use enet_revamp.Peer.Outgoing.{outgoing}

abbrev pub home : Address
home = record { host = 1; port = 7777 }

-- Packet 0 has 3000 bytes and no references, packet 1 has five bytes and three references.
abbrev pub stored : ℕ → Option Packet
stored i =
    if i == 0
    then some (new_packet 1 (some (λ j. if ltb j 3000 then some 42 else none)) 3000)
    else if i == 1
    then some (record (new_packet 1 (some (λ j. some j)) 5) { reference_count = 3 })
    else none

abbrev pub memory_of : (ℕ → Option Packet) → Memory
memory_of packets = record {
  packets = packets;
  requests = 10;
  grants = λ n. true;
  no_memory = 0;
  notified = 0;
}

abbrev pub blank_peer : Peer
blank_peer = record {
  outgoing_peer_id = 0;
  incoming_peer_id = 0;
  connect_id = 7;
  outgoing_session_id = 1;
  incoming_session_id = 2;
  address = home;
  state = connected;
  channels = new_channel ∷ new_channel ∷ [];
  channel_count = 2;
  incoming_bandwidth = 0;
  outgoing_bandwidth = 0;
  incoming_bandwidth_throttle_epoch = 0;
  outgoing_bandwidth_throttle_epoch = 0;
  incoming_data_total = 0;
  outgoing_data_total = 0;
  last_send_time = 0;
  last_receive_time = 100;
  next_timeout = 0;
  earliest_timeout = 0;
  packet_loss_epoch = 0;
  packets_sent = 0;
  packets_lost = 0;
  packet_loss = 0;
  packet_loss_variance = 0;
  packet_throttle = 20;
  packet_throttle_limit = 32;
  packet_throttle_counter = 0;
  packet_throttle_epoch = 0;
  packet_throttle_acceleration = 2;
  packet_throttle_deceleration = 2;
  packet_throttle_interval = 5000;
  ping_interval = 500;
  timeout_limit = 32;
  timeout_minimum = 5000;
  timeout_maximum = 30000;
  last_round_trip_time = 100;
  lowest_round_trip_time = 100;
  last_round_trip_time_variance = 10;
  highest_round_trip_time_variance = 10;
  round_trip_time = 100;
  round_trip_time_variance = 8;
  mtu = 1400;
  window_size = 65536;
  reliable_data_in_transit = 0;
  outgoing_reliable_sequence_number = 0;
  acknowledgements = [];
  sent_reliable_commands = [];
  outgoing_send_reliable_commands = [];
  outgoing_commands = [];
  dispatched_commands = [];
  needs_dispatch = false;
  continue_sending = false;
  incoming_unsequenced_group = 0;
  outgoing_unsequenced_group = 0;
  unsequenced_window = λ i. false;
  event_data = 0;
  total_waiting_data = 0;
}

abbrev pub blank_host : Host
blank_host = record {
  address = home;
  incoming_bandwidth = 0;
  outgoing_bandwidth = 0;
  bandwidth_throttle_epoch = 0;
  mtu = 1400;
  random_seed = 1;
  recalculate_bandwidth_limits = false;
  peers = blank_peer ∷ [];
  channel_limit = 2;
  service_time = 70000;
  dispatch_queue = [];
  dispatch_sound = true;
  total_queued = 0;
  checksum = none;
  received_address = home;
  total_sent_data = 0;
  total_sent_packets = 0;
  total_received_data = 0;
  total_received_packets = 0;
  connected_peers = 1;
  bandwidth_limited_peers = 0;
  duplicate_peers = 4095;
  maximum_packet_size = 33554432;
  maximum_waiting_data = 33554432;
  memory = memory_of stored;
}

abbrev pub session_of : Peer → Session
session_of p = record { host = blank_host; peer = p }

abbrev pub blank_event : Event
blank_event = record { type = no_event; peer = none; channel_id = 0; data_value = 0; packet = none }

-- A reliable command of five bytes from packet 1, on channel 0.
abbrev pub sent_command : OutgoingCommand
sent_command =
    outgoing (protocol (Command.send_reliable + 128) 0 (Body.send_reliable 5)) (some 1) 0 5

-- A reliable command that has arrived with the given number.
abbrev pub arrived : ℕ → IncomingCommand
arrived n = record {
  address = n;
  reliable_sequence_number = n;
  unreliable_sequence_number = 0;
  command = protocol (Command.send_reliable + 128) 0 (Body.send_reliable 5);
  fragment_count = 0;
  fragments_remaining = 0;
  fragments = none;
  packet = some 1;
}

-- An unsequenced command that has arrived.
abbrev pub unsequenced_arrived : IncomingCommand
unsequenced_arrived = record (arrived 0) {
  address = 90;
  command =
      protocol (Command.send_unsequenced + 64) 0
        (Body.send_unsequenced (record { unsequenced_group = 0; data_length = 5 }));
}

-- The peer with commands 1, 2 and 4 and an unsequenced one waiting on channel 0.
abbrev pub waiting_peer : Peer
waiting_peer = record blank_peer {
  channels =
      record new_channel {
        incoming_reliable_commands = arrived 1 ∷ arrived 2 ∷ arrived 4 ∷ [];
        incoming_unreliable_commands = unsequenced_arrived ∷ [];
      }
      ∷ new_channel
      ∷ [];
}

-- The peer with packet 1 in two of its queues.
abbrev pub sending_peer : Peer
sending_peer = record blank_peer {
  sent_reliable_commands = sent_command ∷ [];
  outgoing_send_reliable_commands = sent_command ∷ [];
}
