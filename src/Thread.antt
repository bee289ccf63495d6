-- ===== src/Thread.antt =====
-- src/Thread/TaskExecutor.h and src/Thread/TaskExecutor.cpp: the load of a thread, and the choice
-- of the least loaded executor; and src/Thread/TaskQueue.h.
pub mod TaskQueue
pub mod Load
pub mod Executor
