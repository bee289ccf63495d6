-- ===== src/Network/SendMmsg/Datagrams.antt =====
-- What `BufferSendMMsg` sends and what it keeps.
use zltool_kit.Kit.{
  ℕ, zero, suc, ◌+◌, ◌≤◌, ◌<◌, ◌^◌, ◌≡◌, refl, ap, ◌∙◌, true, false, List, [], ◌∷◌, ◌++◌, Option,
  none, some, All, ltb, ◌==◌, length, take, drop, min, inl, inr, Bool-cases, pick_false, arith,
  append_assoc, length-append,
}
use zltool_kit.Network.Kernel.{Answer, room, interrupted, refused}
use zltool_kit.Network.SendMsg.{calls_for}
use zltool_kit.Network.SendMsg.Conserve.{stops}
use zltool_kit.Network.SendMmsg.{
  Message, SendMmsg, message_bytes, mark_sent, rests, Offset, skip_messages, re_offset_messages,
  take_messages, send_messages,
}

-- A message that waits: it has bytes, and `msg_len` is 0.
pub record IsUnsent (m : Message) : Type 0 where
  pub more : 0 < length m.chunk.rest
  pub unset : m.msg_len ≡ 0

pub record IsPending (s : SendMmsg) : Type 0 where
  pub unsent : All IsUnsent s.messages
  pub sized : s.remain_size ≡ length (message_bytes s.messages)
  pub small : length (message_bytes s.messages) < 2 ^ 64

abbrev pub message_ids : List Message → List ℕ
message_ids [] = []
message_ids (m ∷ ms) = m.chunk.id ∷ message_ids ms

-- The loop of `reOffset` after the kernel took the first `n`: exactly these are out, whole.
record Skips (n : ℕ) (ms : List Message) (r : Offset) : Type 0 where
  left : r.left ≡ drop n ms
  out : r.out ≡ take n (message_ids ms)
  taken : r.taken + length (message_bytes (drop n ms)) ≡ length (message_bytes ms)

skip_messages-Skips :
    (n : ℕ) (ms : List Message)
    → All IsUnsent ms
    → n ≤ length ms
    → Skips n ms (skip_messages (mark_sent n ms))
unfolding skip_messages
skip_messages-Skips zero [] v h = record { left = refl; out = refl; taken = refl }
skip_messages-Skips zero (m ∷ ms) v h =
    let other : (m.msg_len == length m.chunk.rest) ≡ false = ground (arith, v.0.more, v.0.unset) in
    let kept : Message = record m {
      chunk = record (m.chunk) { rest = drop m.msg_len m.chunk.rest };
    } in
    let stop : skip_messages (m ∷ ms) ≡ record { out = []; taken = m.msg_len; left = kept ∷ ms } =
      pick_false _ _ other in
    let same : kept ≡ m =
      ap (λ k. record m { chunk = record (m.chunk) { rest = drop k m.chunk.rest } }) v.0.unset in
    record {
      left = ap (λ r. r.left) stop ∙ ap (λ x. x ∷ ms) same;
      out = ap (λ r. r.out) stop;
      taken = omega (arith, ap (λ r. r.taken) stop, v.0.unset);
    }
skip_messages-Skips (suc n) [] v h = absurd (omega (arith, h))
skip_messages-Skips (suc n) (m ∷ ms) v h =
    let x = skip_messages-Skips n ms v.1 (omega (arith, h)) in
    let all : (length m.chunk.rest == length m.chunk.rest) ≡ true = ground arith in
    rw all (record {
      left = x.left;
      out = ap (◌∷◌ m.chunk.id) x.out;
      taken = omega (arith, x.taken, length-append m.chunk.rest (message_bytes ms));
    })

-- From `s` to `t`: the datagrams that are out are a front of those that waited, each whole and once; their
-- buffers are called for with success, in order, and no others.
pub record Sent (s t : SendMmsg) : Type 0 where
  pub pending : IsPending t
  pub datagrams : t.wire ++ rests t.messages ≡ s.wire ++ rests s.messages
  pub calls :
      t.called ++ calls_for true (message_ids t.messages)
      ≡ s.called ++ calls_for true (message_ids s.messages)

take_of_rests : (n : ℕ) (ms : List Message) → take n (rests ms) ++ rests (drop n ms) ≡ rests ms
take_of_rests zero ms = refl
take_of_rests (suc n) [] = refl
take_of_rests (suc n) (m ∷ ms) = ap (◌∷◌ m.chunk.rest) (take_of_rests n ms)

calls_take :
    (n : ℕ) (ms : List Message)
    → calls_for true (take n (message_ids ms)) ++ calls_for true (message_ids (drop n ms))
      ≡ calls_for true (message_ids ms)
calls_take zero ms = refl
calls_take (suc n) [] = refl
calls_take (suc n) (m ∷ ms) = ap (◌∷◌ (m.chunk.id, true)) (calls_take n ms)

All-drop : (n : ℕ) (ms : List Message) → All IsUnsent ms → All IsUnsent (drop n ms)
All-drop zero ms v = v
All-drop (suc n) [] v = tt
All-drop (suc n) (m ∷ ms) v = All-drop n ms v.1

take_messages-Sent : (r : ℕ) (s : SendMmsg) → IsPending s → Sent s (take_messages r s)
unfolding take_messages re_offset_messages
take_messages-Sent r s v =
    let n = min r (length s.messages) in
    let x = skip_messages-Skips n s.messages v.unsent (omega arith) in
    elim (Bool-cases (ltb 0 n)) [
      | inr nothing ↦ rw nothing (record { pending = v; datagrams = refl; calls = refl })
      | inl some_out ↦
          rw (some_out, x.left, x.out)
            (record {
              pending = record {
                unsent = All-drop n s.messages v.unsent;
                sized = omega (arith, x.taken, v.sized, v.small);
                small = omega (arith, x.taken, v.small);
              };
              datagrams =
                  append_assoc s.wire (take n (rests s.messages)) (rests (drop n s.messages))
                  ∙ ap (◌++◌ s.wire) (take_of_rests n s.messages);
              calls =
                  append_assoc s.called (calls_for true (take n (message_ids s.messages)))
                    (calls_for true (message_ids (drop n s.messages)))
                  ∙ ap (◌++◌ s.called) (calls_take n s.messages);
            })
    ]

Sent-trans : {s t u : SendMmsg} → Sent s t → Sent t u → Sent s u
Sent-trans a b = record {
  pending = b.pending;
  datagrams = b.datagrams ∙ a.datagrams;
  calls = b.calls ∙ a.calls;
}

Sent-refl : (s : SendMmsg) → IsPending s → Sent s s
Sent-refl s v = record { pending = v; datagrams = refl; calls = refl }

none_left : (ms : List Message) → All IsUnsent ms → length (message_bytes ms) ≡ 0 → ms ≡ []
none_left [] v h = refl
none_left (m ∷ ms) v h =
    absurd (omega (arith, v.0.more, h, length-append m.chunk.rest (message_bytes ms)))

all_out : (s : SendMmsg) → IsPending s → (s.remain_size == 0) ≡ true → s.messages ≡ []
all_out s v h = none_left s.messages v.unsent (ground (arith, v.sized))

-- Whatever number of datagrams the kernel takes at each call, and however often it is interrupted: if it
-- refuses at some time, `send` returns; the datagrams taken are those that waited, whole, once and in
-- order, up to the ones that are left; the callback has been called with success once for each that is out; and if
-- there was no error, all are out. The datagrams are not empty.
pub send_messages_lem :
    (answers : List Answer) (s : SendMmsg)
    → IsPending s
    → stops answers ≡ true
    → (t : SendMmsg) × (error : Option ℕ) × (rest : List Answer) × (send_messages answers s
        ≡ some (t, (error, rest)))
      × Sent s t
      × (error ≡ none → t.messages ≡ [])
unfolding send_messages
send_messages_lem [] s v w = cc
send_messages_lem (interrupted ∷ rest) s v w = elim (Bool-cases (s.remain_size == 0)) [
  | inl out ↦ (s, none, interrupted ∷ rest, rw out refl, Sent-refl s v, λ e. all_out s v out)
  | inr more ↦ rw more (send_messages_lem rest s v w)
]
send_messages_lem (refused e ∷ rest) s v w = elim (Bool-cases (s.remain_size == 0)) [
  | inl out ↦ (s, none, refused e ∷ rest, rw out refl, Sent-refl s v, λ e. all_out s v out)
  | inr more ↦ (s, some e, rest, rw more refl, Sent-refl s v, λ (f : some e ≡ none). cc)
]
send_messages_lem (room r ∷ rest) s v w = elim (Bool-cases (s.remain_size == 0)) [
  | inl out ↦ (s, none, room r ∷ rest, rw out refl, Sent-refl s v, λ e. all_out s v out)
  | inr more ↦
      let a = take_messages-Sent r s v in
      let (t, error, left, e, x, finished) =
        send_messages_lem rest (take_messages r s) a.pending w in
      (t, error, left, rw more e, Sent-trans a x, finished)
]
