-- ===== src/Timers.antt =====
-- Time and timers: net/Timestamp.h, net/Timer.h, net/TimerId.h and net/TimerQueue.h with their sources.
pub mod Timestamp
pub mod TimerQueue
pub mod Tests
