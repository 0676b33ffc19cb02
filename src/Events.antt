-- ===== src/Events.antt =====
-- common/events: timers, the loop, and the poller with its channels.
pub mod Timeouts
pub mod Loop
pub mod Poller
