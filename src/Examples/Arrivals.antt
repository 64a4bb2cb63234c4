-- ===== src/Examples/Arrivals.antt =====
-- An example of a datagram that arrives: a header of four bytes and a ping.
use enet_revamp.Base.{◌≡◌, ◌==◌, false, if◌then◌else◌, none, some, arith}
use enet_revamp.Service.Arrival.{Arrival, read_header}
use enet_revamp.Service.Receive.{Reading, read_commands}
use enet_revamp.Service.Receive.Rounds.{read_commands-enough}
use enet_revamp.Examples.Data.{blank_host}

abbrev ping_arrival : Arrival
ping_arrival = record { bytes = λ i. if i == 0 then 128 else if i == 4 then 133 else 0; size = 8 }

abbrev ping_reading : Reading
ping_reading = record { host = blank_host; peer = some 0; event = none; place = 4 }

read_commands-enough_example :
    read_commands 8 (λ h. h) (read_header false ping_arrival) ping_arrival ping_reading
    ≡ read_commands 4 (λ h. h) (read_header false ping_arrival) ping_arrival ping_reading
read_commands-enough_example =
    read_commands-enough 8 (λ h. h) (read_header false ping_arrival) ping_arrival ping_reading
      (omega arith)
