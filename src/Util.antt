-- ===== src/Util.antt =====
-- src/Util: containers, notices and text that the other parts share.
pub mod ResourcePool
pub mod Notice
pub mod Text
pub mod File
