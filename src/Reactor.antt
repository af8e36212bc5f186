-- ===== src/Reactor.antt =====
-- The reactor: channels, and the epoll set that they are registered in.
pub mod Epoller
pub mod Channel
pub mod Tests
