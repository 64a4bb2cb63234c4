-- ===== src/Examples/Rounds.antt =====
-- An example of a service: a ping comes in the second round, then the socket fails.
use enet_revamp.Base.{◌≡◌, ◌==◌, ◌+◌, if◌then◌else◌, none, some, refl}
use enet_revamp.Protocol.{wants_acknowledge}
use enet_revamp.Packet.{malloc}
use enet_revamp.Peer.Outgoing.{
  queue_outgoing_command, queue_allocated, setup_outgoing_command, enqueue, stamp, number_command,
}
use enet_revamp.Service.Arrival.{Arrival}
use enet_revamp.Service.Send.{failed}
use enet_revamp.Service.Loop.{World, nothing, error, arrived, woken, host_service}
use enet_revamp.Examples.Data.{blank_host, home}

abbrev ping : Arrival
ping = record { bytes = λ i. if i == 0 then 128 else if i == 4 then 133 else 0; size = 8 }

abbrev quiet_world : World
quiet_world = record {
  outside = record { flush = λ h. h; compress = none; socket = λ _ w. some 0 };
  decompress = none;
  intercept = none;
  clock = λ i. 70000 + i;
  receive = λ i. if i == 0 then nothing else if i == 1 then arrived home ping else error;
  wait = λ i. woken (i == 0) (i == 1);
}

-- The first wait is interrupted, so the clock is read twice before the second round.
service_test : (host_service 4 quiet_world blank_host none 100).0 ≡ failed
unfolding host_service queue_outgoing_command queue_allocated malloc setup_outgoing_command enqueue
    wants_acknowledge stamp number_command
service_test = refl

service_calls_test : (host_service 4 quiet_world blank_host none 100).1.receive_calls ≡ 3
unfolding host_service queue_outgoing_command queue_allocated malloc setup_outgoing_command enqueue
    wants_acknowledge stamp number_command
service_calls_test = refl
