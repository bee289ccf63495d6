-- ===== src/Poller.antt =====
-- src/Poller/EventPoller.cpp: the tasks of a poller, and its events.
pub mod Delay
pub mod Async
pub mod Events
pub mod Timer
