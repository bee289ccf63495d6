-- ===== src/Network/SendTo.antt =====
-- `BufferSendTo` of src/Network/BufferSock.cpp: buffers sent one by one, by `sendto` or `send`. A kernel that
-- takes no byte of a buffer stops the program by `assert`.
pub mod Front
mod Tests
use zltool_kit.Kit.{
  ℕ, ◌+◌, ◌-◌, Bool, true, false, List, [], ◌∷◌, ◌++◌, Option, none, some, ◌==◌, if◌then◌else◌,
  length, take, drop, min,
}
use zltool_kit.Network.Kernel.{Answer, room, interrupted, refused, Chunk}
use zltool_kit.Network.SendMsg.{calls_for, ids_of}

pub record SendTo : Type 0 where
  pub is_udp : Bool
  pub chunks : List Chunk
  pub offset : ℕ
  pub called : List (ℕ × Bool)
  pub wire : List ℕ

-- What a call takes of the front buffer when there is room for `r` bytes: a datagram is sent whole.
abbrev pub sent_now : Bool → ℕ → ℕ → ℕ
sent_now true left r = left
sent_now false left r = min r left

-- A call that took `n` bytes of the front buffer.
unfoldable pub advance : ℕ → Chunk → List Chunk → SendTo → SendTo
advance n c cs s =
    let out = record s { wire = s.wire ++ take n (drop s.offset c.rest) } in
    if (s.offset + n) == length c.rest
    then record out { called = s.called ++ ((c.id, true) ∷ []); chunks = cs; offset = 0 }
    else record out { offset = s.offset + n }

-- `send`, over the answers of the kernel: the error that ended the loop, and the answers that are left. `none` is a
-- call for which no answer is left, or the `assert`.
unfoldable pub send_to :
    List Answer → List Chunk → SendTo → Option (SendTo × (Option ℕ × List Answer))
unfolding advance
send_to answers [] s = some (s, (none, answers))
send_to [] (c ∷ cs) s = none
send_to (interrupted ∷ rest) (c ∷ cs) s = send_to rest (c ∷ cs) s
send_to (refused e ∷ rest) (c ∷ cs) s = some (s, (some e, rest))
send_to (room r ∷ rest) (c ∷ cs) s =
    let n = sent_now s.is_udp (length c.rest - s.offset) r in
    let t = advance n c cs s in
    let again = send_to rest t.chunks t in if n == 0 then none else again
