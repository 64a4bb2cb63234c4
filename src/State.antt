-- ===== src/State.antt =====
-- The state of the library: the structures of include/enet/enet.h. The children hold packets and
-- queued commands (State/Queued), peers and their channels (State/Peers), and hosts (State/Hosts).
mod Queued
mod Peers
pub mod Ranks
mod Hosts
pub use Queued.*
pub use Peers.*
pub use Hosts.*
