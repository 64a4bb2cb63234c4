-- ===== src/Time/Order.antt =====
-- What the time macros of include/enet/time.h mean on a clock that wraps.
