-- ===== src/Protocol/Command.antt =====
-- The numbers of the commands: the enum ENetProtocolCommand of include/enet/protocol.h.
use enet_revamp.Base.{ℕ}

abbrev pub none : ℕ
none = 0

abbrev pub acknowledge : ℕ
acknowledge = 1

abbrev pub connect : ℕ
connect = 2

abbrev pub verify_connect : ℕ
verify_connect = 3

abbrev pub disconnect : ℕ
disconnect = 4

abbrev pub ping : ℕ
ping = 5

abbrev pub send_reliable : ℕ
send_reliable = 6

abbrev pub send_unreliable : ℕ
send_unreliable = 7

abbrev pub send_fragment : ℕ
send_fragment = 8

abbrev pub send_unsequenced : ℕ
send_unsequenced = 9

abbrev pub bandwidth_limit : ℕ
bandwidth_limit = 10

abbrev pub throttle_configure : ℕ
throttle_configure = 11

abbrev pub send_unreliable_fragment : ℕ
send_unreliable_fragment = 12

abbrev pub count : ℕ
count = 13
