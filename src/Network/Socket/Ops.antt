-- ===== src/Network/Socket/Ops.antt =====
-- The operations of a socket that send: `flushAll`, `onWriteAble` and `send_l`, on every branch.
use zltool_kit.Kit.{
  pick_true, pick_false, ℕ, ◌+◌, ◌<◌, ◌^◌, ◌≡◌, inl, inr, refl, sym, ap, ◌∙◌, Bool, true, false,
  not, ◌&&◌, List, [], ◌∷◌, ◌++◌, Option, none, some, All-append, ltb, ◌==◌, length, length-append,
  arith, append_assoc, append-nil, Bool-cases,
}
use zltool_kit.Kit.Words.{sub64}
use zltool_kit.Network.Kernel.{Answer, Chunk}
use zltool_kit.Network.SendMsg.{bytes_of}
use zltool_kit.Network.SendMsg.Conserve.{stops, bytes_of-append}
use zltool_kit.Network.Socket.{
  Socket, send_timeout, emit_err, flush_all, on_write_able, send_l, stop_write_able, is_nil,
  sent_or_error,
}
use zltool_kit.Network.Socket.Sound.{IsSound, packet_bytes, stream, pieces, pieces-HasBytes}
use zltool_kit.Network.SendMsg.Cut.{HasBytes, IsLeft-refl}
use zltool_kit.Network.Socket.Stream.{
  writes, IsArmed, IsFlushed, FlushEnds, flushed, is_known-modify_event,
}
use zltool_kit.Network.Socket.Total.{flush_data_lem}

IsFlushed-refl : (s : Socket) → IsSound s → IsArmed s → IsFlushed s s
IsFlushed-refl s v a = record {
  sound = v;
  armed = a;
  bytes = refl;
  calls = refl;
  left = IsLeft-refl (pieces s) (pieces-HasBytes s v);
  keeps = record { enable_recv = refl; err_emit = refl; errors = refl; has_fd = refl };
}

-- How `flushAll` may end: as `flushData` does, with no descriptor, or when the oldest bytes have waited for
-- longer than they may.
pub data AllEnds (answers : List Answer) (s t : Socket) (ok : Bool) : Type 0 where
  ended : FlushEnds answers s t ok → AllEnds answers s t ok
  no_socket : s.has_fd ≡ false → t ≡ s → ok ≡ false → AllEnds answers s t ok
  timed_out : s.sendable ≡ false → t ≡ emit_err send_timeout s → ok ≡ false → AllEnds answers s t ok

-- With the kernel's answers ending in a refusal, `flushAll` returns, in one of those ways.
pub flush_all_lem :
    (now : ℕ) (answers : List Answer) (s : Socket)
    → IsSound s
    → IsArmed s
    → stops answers ≡ true
    → (t : Socket) × (ok : Bool) × (rest : List Answer) × (flush_all now answers s
        ≡ some (t, (ok, rest)))
      × AllEnds answers s t ok
unfolding flush_all
flush_all_lem now answers s v a w = elim (Bool-cases s.has_fd) [
  | inr closed ↦ (s, false, answers, pick_true _ _ (ap not closed), no_socket closed refl refl)
  | inl there ↦ elim (Bool-cases s.sendable) [
    | inl can ↦
        let (t, ok, rest, e, x) =
          flush_data_lem false now answers s v
            (record { armed = a; told = λ (b : false ≡ true). cc }) w in
        (t, ok, rest, pick_false _ _ (ap not there) ∙ (pick_true _ _ can ∙ e), ended x)
    | inr busy ↦ elim (Bool-cases (ltb s.max_send_buffer_ms (sub64 now s.flushed_at))) [
      | inl late ↦ (
        emit_err send_timeout s,
        false,
        answers,
        pick_false _ _ (ap not there) ∙ (pick_false _ _ busy ∙ pick_true _ _ late),
        timed_out busy refl refl,
      )
      | inr early ↦ (
        s,
        true,
        answers,
        pick_false _ _ (ap not there) ∙ (pick_false _ _ busy ∙ pick_false _ _ early),
        ended (flushed (IsFlushed-refl s v a)),
      )
    ]
  ]
]

stopped : (s : Socket) → IsSound s → IsArmed s → s.sending ≡ [] → IsFlushed s (stop_write_able s)
unfolding stop_write_able
stopped s v a e = record {
  sound = record { ready = v.ready; filled = v.filled; small = v.small };
  armed = record {
    known =
        is_known-modify_event (record { read = s.enable_recv; write = false }) s.watch ∙ a.known;
    queued = inl e;
    busy = λ (x : true ≡ false). cc;
  };
  bytes = refl;
  calls = refl;
  left = IsLeft-refl (pieces s) (pieces-HasBytes s v);
  keeps = record { enable_recv = refl; err_emit = refl; errors = refl; has_fd = refl };
}

is_nil-true : {A : Type 0} (xs : List A) → is_nil xs ≡ true → xs ≡ []
is_nil-true [] h = refl
is_nil-true (x ∷ xs) h = cc

both-true : (a b : Bool) → (a && b) ≡ true → b ≡ true
both-true true b h = h
both-true false b h = cc

-- When the poller says that the socket is writable, which it does only while it watches for that, and
-- the kernel's answers end in a refusal, `onWriteAble` returns as `flushData` does.
pub on_write_able_lem :
    (now : ℕ) (answers : List Answer) (s : Socket)
    → IsSound s
    → IsArmed s
    → writes s.watch ≡ true
    → stops answers ≡ true
    → (t : Socket) × (ok : Bool) × (rest : List Answer) × (on_write_able now answers s
        ≡ some (t, (ok, rest)))
      × FlushEnds answers s t ok
unfolding on_write_able
on_write_able_lem now answers s v a told w =
    elim (Bool-cases (is_nil s.waiting && is_nil s.sending)) [
      | inl empty ↦
          let out = is_nil-true s.sending (both-true (is_nil s.waiting) (is_nil s.sending) empty) in
          (stop_write_able s, true, answers, rw empty refl, flushed (stopped s v a out))
      | inr more ↦
          let (t, ok, rest, e, x) =
            flush_data_lem true now answers s v (record { armed = a; told = λ b. told }) w in
          (t, ok, rest, rw more e, x)
    ]

-- The socket with one more buffer in its first-level list.
abbrev pub queue : Chunk → Socket → Socket
queue buf s = record s { waiting = s.waiting ++ (buf ∷ []) }

queue-IsSound :
    (buf : Chunk) (s : Socket)
    → IsSound s
    → HasBytes buf
    → length (bytes_of s.waiting) + length buf.rest < 2 ^ 63
    → IsSound (queue buf s)
queue-IsSound buf s v h w = record {
  ready = v.ready;
  filled = All-append HasBytes s.waiting (buf ∷ []) v.filled (h, tt);
  small = omega (
    arith,
    w,
    ap length (bytes_of-append s.waiting (buf ∷ [])),
    length-append (bytes_of s.waiting) (buf.rest ++ []),
    ap length (append-nil buf.rest),
  );
}

queue-IsArmed : (buf : Chunk) (s : Socket) → IsArmed s → IsArmed (queue buf s)
queue-IsArmed buf s a = record { known = a.known; queued = a.queued; busy = a.busy }

-- A buffer joins the stream at its end.
pub stream-queue : (buf : Chunk) (s : Socket) → stream (queue buf s) ≡ stream s ++ buf.rest
stream-queue buf s =
    ap (λ b. s.wire ++ (packet_bytes s.sending ++ b))
      (bytes_of-append s.waiting (buf ∷ []) ∙ ap (◌++◌ (bytes_of s.waiting)) (append-nil buf.rest))
    ∙ ap (◌++◌ s.wire) (sym (append_assoc (packet_bytes s.sending) (bytes_of s.waiting) buf.rest))
    ∙ sym (append_assoc s.wire (packet_bytes s.sending ++ bytes_of s.waiting) buf.rest)

-- How `send_l` may end with a buffer that has bytes: it is queued, and then the result is its size, or it is -1
-- for one of the reasons of `flushAll`.
pub data SendEnds (answers : List Answer) (buf : Chunk) (s t : Socket) : Option ℕ → Type 0 where
  sent : IsFlushed (queue buf s) t → SendEnds answers buf s t (some (length buf.rest))
  not_sent : AllEnds answers (queue buf s) t false → SendEnds answers buf s t none

replied :
    (answers : List Answer) (buf : Chunk) (s t : Socket) (ok : Bool) (rest : List Answer)
    → AllEnds answers (queue buf s) t ok
    → (reply : Option ℕ) × (sent_or_error (length buf.rest) (some (t, (ok, rest)))
        ≡ some (t, (reply, rest)))
      × SendEnds answers buf s t reply
replied answers buf s t true rest (ended (flushed f)) = (some (length buf.rest), refl, sent f)
replied answers buf s t true rest (no_socket a b c) = cc
replied answers buf s t true rest (timed_out a b c) = cc
replied answers buf s t false rest x = (none, refl, not_sent x)

-- With a buffer that has bytes, and the kernel's answers ending in a refusal, `send_l` returns: the buffer is
-- at the end of the stream, or the result is -1.
pub send_l_lem :
    (buf : Chunk) (try_flush : Bool) (now : ℕ) (answers : List Answer) (s : Socket)
    → IsSound s
    → IsArmed s
    → HasBytes buf
    → length (bytes_of s.waiting) + length buf.rest < 2 ^ 63
    → stops answers ≡ true
    → (t : Socket) × (reply : Option ℕ) × (rest : List Answer) × (send_l buf try_flush now answers s
        ≡ some (t, (reply, rest)))
      × SendEnds answers buf s t reply
unfolding send_l
send_l_lem buf true now answers s v a h small w =
    let more : (length buf.rest == 0) ≡ false = ground (arith, h) in
    let (t, ok, rest, e, x) =
      flush_all_lem now answers (queue buf s) (queue-IsSound buf s v h small)
        (queue-IsArmed buf s a) w in
    let (reply, f, y) = replied answers buf s t ok rest x in
    (t, reply, rest, pick_false _ _ more ∙ (ap (sent_or_error (length buf.rest)) e ∙ f), y)
send_l_lem buf false now answers s v a h small w =
    let more : (length buf.rest == 0) ≡ false = ground (arith, h) in
    (
      queue buf s,
      some (length buf.rest),
      answers,
      pick_false _ _ more,
      sent (IsFlushed-refl (queue buf s) (queue-IsSound buf s v h small) (queue-IsArmed buf s a)),
    )
