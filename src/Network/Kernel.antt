-- ===== src/Network/Kernel.antt =====
-- What the kernel does at a call that sends, as far as the callers see it: what it answers is chosen by
-- the environment, call after call.
use zltool_kit.Kit.{ℕ, List}

-- `room n` is a call that takes as much of what is offered as fits in `n`, in bytes, or in datagrams for
-- `sendmmsg`; `interrupted` is the error
-- `EINTR`, and `refused e` another error.
pub data Answer : Type 0 where
  room : ℕ → Answer
  interrupted : Answer
  refused : ℕ → Answer

-- A buffer on its way out: which one it is, and its bytes that are not out yet.
pub record Chunk : Type 0 where
  pub id : ℕ
  pub rest : List ℕ
