-- ===== src/Examples.antt =====
-- Each theorem of the list in Lib.antt that has conditions, applied to a concrete peer and host, and
-- a run of the service (`Rounds`).
mod Data
mod Packets
mod Peers
mod Handlers
mod Fragments
mod Sending
mod Lists
mod Arrivals
mod Rounds
