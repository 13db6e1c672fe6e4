-- ===== src/Ek3.antt =====
-- ek3/: the event reactor.
pub mod Reactor
