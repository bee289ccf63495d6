-- ===== src/Network/SendMmsg.antt =====
-- `BufferSendMMsg` of src/Network/BufferSock.cpp: datagrams sent by `sendmmsg`. A message goes with its entry
-- of `_pkt_list`. `wire` are the datagrams that the kernel has taken.
pub mod Datagrams
mod Tests
use zltool_kit.Kit.{
  ℕ, zero, suc, ◌+◌, Bool, true, false, List, [], ◌∷◌, ◌++◌, Option, none, some, map, ltb, ◌==◌,
  if◌then◌else◌, length, take, drop, min,
}
use zltool_kit.Kit.Words.{u64, sub64}
use zltool_kit.Network.Kernel.{Answer, room, interrupted, refused, Chunk}
use zltool_kit.Network.SendMsg.{bytes_of, calls_for}

-- An entry of `_hdrvec`: its buffer, and `msg_len`, which the kernel sets.
pub record Message : Type 0 where
  pub chunk : Chunk
  pub msg_len : ℕ

pub record SendMmsg : Type 0 where
  pub messages : List Message
  pub remain_size : ℕ
  pub called : List (ℕ × Bool)
  pub wire : List (List ℕ)

abbrev pub message_bytes : List Message → List ℕ
message_bytes [] = []
message_bytes (m ∷ ms) = m.chunk.rest ++ message_bytes ms

-- The constructor.
abbrev pub new_message : Chunk → Message
new_message c = record { chunk = c; msg_len = 0 }

unfoldable pub new_send_mmsg : List Chunk → List (List ℕ) → SendMmsg
new_send_mmsg cs wire = record {
  messages = map new_message cs;
  remain_size = u64 (length (bytes_of cs));
  called = [];
  wire = wire;
}

-- `sendmmsg` that takes the first `n` messages: it sets their `msg_len` to the bytes sent.
abbrev pub mark_sent : ℕ → List Message → List Message
mark_sent n [] = []
mark_sent zero (m ∷ ms) = m ∷ ms
mark_sent (suc n) (m ∷ ms) = record m { msg_len = length m.chunk.rest } ∷ mark_sent n ms

abbrev pub rests : List Message → List (List ℕ)
rests [] = []
rests (m ∷ ms) = m.chunk.rest ∷ rests ms

-- The loop of `reOffset`: the buffers that are out, the bytes taken off the size, and what is left.
pub record Offset : Type 0 where
  pub out : List ℕ
  pub taken : ℕ
  pub left : List Message

unfoldable pub skip_messages : List Message → Offset
skip_messages [] = record { out = []; taken = 0; left = [] }
skip_messages (m ∷ ms) =
    let more = skip_messages ms in
    let c = m.chunk in
    if m.msg_len == length c.rest
    then record { out = c.id ∷ more.out; taken = m.msg_len + more.taken; left = more.left }
    else record {
      out = [];
      taken = m.msg_len;
      left = record m { chunk = record c { rest = drop m.msg_len c.rest } } ∷ ms;
    }

unfoldable pub re_offset_messages : SendMmsg → SendMmsg
unfolding skip_messages
re_offset_messages s =
    let r = skip_messages s.messages in
    record s {
      messages = r.left;
      remain_size = sub64 s.remain_size r.taken;
      called = s.called ++ calls_for true r.out;
    }

-- `send_l` with a kernel that takes at most `r` messages.
unfoldable pub take_messages : ℕ → SendMmsg → SendMmsg
unfolding re_offset_messages
take_messages r s =
    let n = min r (length s.messages) in
    let moved = re_offset_messages (record s {
      messages = mark_sent n s.messages;
      wire = s.wire ++ take n (rests s.messages);
    }) in
    if ltb 0 n then moved else s

-- The loops of `send` and `send_l`, as for `SendMsg`.
unfoldable pub send_messages : List Answer → SendMmsg → Option (SendMmsg × (Option ℕ × List Answer))
unfolding take_messages
send_messages [] s = if s.remain_size == 0 then some (s, (none, [])) else none
send_messages (interrupted ∷ rest) s =
    let again = send_messages rest s in
    if s.remain_size == 0 then some (s, (none, interrupted ∷ rest)) else again
send_messages (refused e ∷ rest) s =
    if s.remain_size == 0 then some (s, (none, refused e ∷ rest)) else some (s, (some e, rest))
send_messages (room r ∷ rest) s =
    let again = send_messages rest (take_messages r s) in
    if s.remain_size == 0 then some (s, (none, room r ∷ rest)) else again
