-- ===== src/Handle/Acknowledge/RoundTrip.antt =====
-- The times of src/protocol.c in enet_protocol_handle_acknowledge: the time that a command was sent
-- at is recovered from its lower 16 bits, and the smoothed round trip time stays between the old one
-- and the sample.
use enet_revamp.Base.{ℕ, ◌+◌, ◌-◌, ◌/◌, ◌≤◌, ◌<◌, ◌≡◌, arith, u16, sub32, enet_max, enet_min}
use enet_revamp.Time.{time_difference}
use enet_revamp.State.{Peer}
use enet_revamp.Handle.Acknowledge.{full_sent_time, smooth}

-- A command sent less than 32768 ms ago, even before the 32-bit clock wrapped: from the lower 16 bits
-- of the time when it was sent and the time now the handler recovers that time, and takes the true
-- age for the round trip time.
pub full_sent_time-recovers :
    (now age : ℕ)
    → now < 4294967296
    → age < 32768
    → (full_sent_time now (u16 (sub32 now age)) ≡ sub32 now age)
      × (time_difference now (full_sent_time now (u16 (sub32 now age))) ≡ age)
unfolding full_sent_time time_difference
full_sent_time-recovers now age h k = ground arith

-- A smoothed round trip time lies between the old one and the sample, nearer to the old one: an
-- eighth of the way. Its variance, where the sum does not wrap, loses at most a quarter and gains at
-- most a quarter of the distance to the sample.
pub smooth_bounds :
    (p : Peer) (sample : ℕ)
    → sample < 4294967296
    → p.round_trip_time < 4294967296
    → p.round_trip_time_variance < 2147483648
    → (enet_min p.round_trip_time sample ≤ (smooth sample p).round_trip_time)
      × ((smooth sample p).round_trip_time ≤ enet_max p.round_trip_time sample)
      × (p.round_trip_time_variance
          ≤ (smooth sample p).round_trip_time_variance + p.round_trip_time_variance / 4)
      × ((smooth sample p).round_trip_time_variance
          ≤ p.round_trip_time_variance
            + (enet_max p.round_trip_time sample - enet_min p.round_trip_time sample) / 4)
unfolding smooth
smooth_bounds p sample h k l = ground arith
