-- ===== src/Ring.antt =====
-- src/Util/RingBuffer.h: the cache of groups of frames, the readers of one poller, and the buffer that
-- serves several pollers.
pub mod Storage
pub mod Dispatcher
pub mod Hub
