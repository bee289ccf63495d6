-- ===== src/Network/SendMsg.antt =====
-- `BufferSendMsg` of src/Network/BufferSock.cpp, with its `BufferCallBack`: buffers sent by `sendmsg`.
-- `_iovec` from `_iovec_off` on and `_pkt_list` go together, as a list of chunks. `wire` is what the
-- kernel has taken, and `called` are the calls of the callback, a buffer and whether it was sent; the
-- callback is one that is set.
pub mod Cut
pub mod Conserve
mod Tests
use zltool_kit.Kit.{
  ℕ, zero, suc, ◌+◌, ◌-◌, Bool, true, false, List, [], ◌∷◌, ◌++◌, Option, none, some, map, concat,
  ltb, leb, ◌==◌, if◌then◌else◌, length, take, drop, min,
}
use zltool_kit.Kit.Words.{u64, sub64}
use zltool_kit.Network.Kernel.{Answer, room, interrupted, refused, Chunk}

pub record SendMsg : Type 0 where
  pub chunks : List Chunk
  pub remain_size : ℕ
  pub called : List (ℕ × Bool)
  pub wire : List ℕ

-- `IOV_MAX`.
abbrev pub iov_max : ℕ
iov_max = 1024

-- The bytes of the buffers, one after the other.
abbrev pub bytes_of : List Chunk → List ℕ
bytes_of [] = []
bytes_of (c ∷ cs) = c.rest ++ bytes_of cs

abbrev pub ids_of : List Chunk → List ℕ
ids_of [] = []
ids_of (c ∷ cs) = c.id ∷ ids_of cs

abbrev pub calls_for : Bool → List ℕ → List (ℕ × Bool)
calls_for flag [] = []
calls_for flag (i ∷ is) = (i, flag) ∷ calls_for flag is

-- The constructor.
unfoldable pub new_send_msg : List Chunk → List ℕ → SendMsg
new_send_msg cs wire = record {
  chunks = cs;
  remain_size = u64 (length (bytes_of cs));
  called = [];
  wire = wire;
}

unfoldable pub is_empty : SendMsg → Bool
is_empty s = s.remain_size == 0

unfoldable pub send_completed : Bool → SendMsg → SendMsg
send_completed flag s = record s {
  called = s.called ++ calls_for flag (ids_of s.chunks);
  chunks = [];
}

-- The loop of `reOffset` at `offset`: the buffers that are out, and what is left.
unfoldable pub skip_sent : ℕ → ℕ → List Chunk → List ℕ × List Chunk
skip_sent n offset [] = ([], [])
skip_sent n offset (c ∷ cs) =
    let end = u64 (offset + length c.rest) in
    let (out, left) = skip_sent n end cs in
    let remain = sub64 end n in
    if ltb end n
    then (c.id ∷ out, left)
    else if end == n
    then (c.id ∷ [], cs)
    else ([], record c { rest = drop (length c.rest - remain) c.rest } ∷ cs)

unfoldable pub re_offset : ℕ → SendMsg → SendMsg
re_offset n s =
    let (out, left) = skip_sent n 0 s.chunks in
    record s {
      remain_size = sub64 s.remain_size n;
      called = s.called ++ calls_for true out;
      chunks = left;
    }

-- `sendmsg` with room for `n` bytes: the bytes of at most `IOV_MAX` buffers are offered.
abbrev pub offered : SendMsg → List ℕ
offered s = bytes_of (take iov_max s.chunks)

-- What `send_l` does with what `sendmsg` took.
unfoldable pub take_out : ℕ → SendMsg → SendMsg
take_out r s =
    let n = min r (length (offered s)) in
    let out = record s { wire = s.wire ++ take n (offered s) } in
    let done = send_completed true (record out { remain_size = 0 }) in
    let moved = re_offset n out in
    if leb s.remain_size n then done else if ltb 0 n then moved else out

-- The loops of `send` and `send_l`, over the answers of the kernel; the error that ended it, if one
-- did, and the answers that are left. `none` is a call for which no answer is left.
unfoldable pub send_loop : List Answer → SendMsg → Option (SendMsg × (Option ℕ × List Answer))
send_loop [] s = if s.remain_size == 0 then some (s, (none, [])) else none
send_loop (interrupted ∷ rest) s =
    let again = send_loop rest s in
    if s.remain_size == 0 then some (s, (none, interrupted ∷ rest)) else again
send_loop (refused e ∷ rest) s =
    if s.remain_size == 0 then some (s, (none, refused e ∷ rest)) else some (s, (some e, rest))
send_loop (room r ∷ rest) s =
    let again = send_loop rest (take_out r s) in
    if s.remain_size == 0 then some (s, (none, room r ∷ rest)) else again

-- The destructor: the callback hears of what was not sent.
unfoldable pub destroy : SendMsg → SendMsg
unfolding send_completed
destroy s = send_completed false s
