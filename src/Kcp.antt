-- ===== src/Kcp.antt =====
-- src/Network/Kcp.h and Kcp.cpp: the reliable transport over datagrams.
mod Fixtures
pub mod Header
pub mod Packet
pub mod State
pub mod Rtt
pub mod Receive
pub mod Send
pub mod Congestion
pub mod Flush
pub mod Input
pub mod Api
