-- ===== src/Handle/Control/Window.antt =====
-- Bounds on the parameters of a connection that the handlers of src/protocol.c set, and on the
-- session numbers.
use enet_revamp.Base.{ℕ, ◌≤◌, ◌<◌, ◌≢◌, ◌≡◌, ◌⊎◌, arith}
use enet_revamp.Handle.Control.{window_for}
use enet_revamp.Handle.Connect.{next_session}

-- A limit of the bandwidth is no tighter than another: it is 0, for none, or both are limits and it
-- is at least as large.
abbrev pub IsLooser : ℕ → ℕ → Type 0
IsLooser more incoming = (more ≡ 0) ⊎ (0 < incoming) × (incoming ≤ more)

-- A window size lies between 4096 and 65536 whatever the bandwidths, 0 for no limit included, and an
-- incoming bandwidth that is limited no more tightly gives no smaller window.
pub window_for_bounds :
    (incoming more outgoing : ℕ)
    → IsLooser more incoming
    → (4096 ≤ window_for incoming outgoing)
      × (window_for incoming outgoing ≤ window_for more outgoing)
      × (window_for more outgoing ≤ 65536)
unfolding window_for
window_for_bounds incoming more outgoing h = ground arith

-- A new connection never takes the session number of the last one on the same peer, and its number
-- is below 4.
pub next_session_fresh :
    (requested last : ℕ) → (next_session requested last < 4) × (next_session requested last ≢ last)
unfolding next_session
next_session_fresh requested last = ground arith
