-- ===== src/Network/Socket/Stream.antt =====
-- `flushData` as a whole, from either thread.
use zltool_kit.Kit.{
  ℕ, ◌<◌, ◌^◌, ◌≡◌, ◌⊎◌, inl, inr, refl, sym, ap, ◌∙◌, Bool, true, false, List, [], ◌∷◌, ◌++◌,
  Option, none, some, All, if◌then◌else◌, length, arith, append-nil, Bool-cases,
}
use mathlib.Core.Path.{subst}
use zltool_kit.Network.Kernel.{Answer, Chunk}
use zltool_kit.Network.SendMsg.{SendMsg, bytes_of, ids_of, calls_for, new_send_msg}
use zltool_kit.Network.SendMsg.Conserve.{refusal}
use zltool_kit.Network.SendMsg.Cut.{HasBytes, IsLeft, IsLeft-refl}
use zltool_kit.Network.Socket.{
  Socket, Watch, errno_fault, Start, idle, busy, begin_flush, unsent, modify_event, stop_write_able,
  on_flushed,
}
use zltool_kit.Network.Socket.Sound.{
  IsReady, IsSound, packet_bytes, packet_calls, packet_chunks, pieces, pieces-HasBytes, stream,
  outcome, new_send_msg-IsReady,
}

-- Whether the poller watches the descriptor, and for writing.
abbrev pub is_known : Option Watch → Bool
is_known none = false
is_known (some w) = true

abbrev pub writes : Option Watch → Bool
writes none = false
writes (some w) = w.write

-- While something is in the second-level list, or the socket counts as not writable, the poller watches
-- for its being writable.
pub record IsArmed (s : Socket) : Type 0 where
  pub known : is_known s.watch ≡ true
  pub queued : (s.sending ≡ []) ⊎ (writes s.watch ≡ true)
  pub busy : s.sendable ≡ false → writes s.watch ≡ true

pub record Keeps (s t : Socket) : Type 0 where
  pub enable_recv : t.enable_recv ≡ s.enable_recv
  pub err_emit : t.err_emit ≡ s.err_emit
  pub errors : t.errors ≡ s.errors
  pub has_fd : t.has_fd ≡ s.has_fd

-- `flushData` with the result `true`: no byte is lost or moved, nor is a call of the callback, and the buffers in the
-- lists are those with bytes that are not out.
pub record IsFlushed (s t : Socket) : Type 0 where
  pub sound : IsSound t
  pub armed : IsArmed t
  pub bytes : stream t ≡ stream s
  pub calls : outcome t ≡ outcome s
  pub left : IsLeft (pieces s) (pieces t)
  pub keeps : Keeps s t

-- With the result `false`: the kernel has a front of the stream; the packets `left` that were being sent, with the
-- first-level list, are the buffers with bytes that are not out; they are reported as failed, after the calls
-- `done`; and one error is posted, that of the kernel's refusal, unless one was before.
pub record IsBroken (answers : List Answer) (s t : Socket) : Type 0 where
  pub left : List SendMsg
  pub done : List (ℕ × Bool)
  pub error : ℕ
  pub unsent_left : IsLeft (pieces s) (packet_chunks left ++ t.waiting)
  pub told : refusal answers ≡ some error
  pub bytes : t.wire ++ (packet_bytes left ++ bytes_of t.waiting) ≡ stream s
  pub calls : done ++ (packet_calls left ++ calls_for true (ids_of t.waiting)) ≡ outcome s
  pub called : t.called ≡ done ++ unsent left
  pub err_emit : t.err_emit ≡ true
  pub errors : t.errors ≡ (if s.err_emit then s.errors else s.errors ++ (errno_fault error ∷ []))
  pub sending : t.sending ≡ []

pub data FlushEnds (answers : List Answer) (s t : Socket) : Bool → Type 0 where
  flushed : IsFlushed s t → FlushEnds answers s t true
  broke : IsBroken answers s t → FlushEnds answers s t false

-- The rounds that are needed at most.
abbrev pub need : List SendMsg → List Chunk → ℕ
need [] [] = 1
need [] (c ∷ cs) = 2
need (p ∷ ps) [] = 2
need (p ∷ ps) (c ∷ cs) = 3

-- What `flushData` has before its loop.
pub record IsBegun (s t : Socket) (ps : List SendMsg) : Type 0 where
  pub ready : All IsReady ps
  pub filled : All HasBytes t.waiting
  pub small : length (bytes_of t.waiting) < 2 ^ 63
  pub chunks : packet_chunks ps ++ t.waiting ≡ pieces s
  pub sending : t.sending ≡ []
  pub bytes : t.wire ++ (packet_bytes ps ++ bytes_of t.waiting) ≡ stream s
  pub calls : t.called ++ (packet_calls ps ++ calls_for true (ids_of t.waiting)) ≡ outcome s
  pub keeps : Keeps s t
  pub sendable : t.sendable ≡ s.sendable
  pub watch : t.watch ≡ s.watch
  pub fewer : need [] t.waiting < need s.sending s.waiting

pub data Begins (s : Socket) : Start → Type 0 where
  begins_idle : (t : Socket) → (IsArmed s → IsFlushed s t) → Begins s (idle t)
  begins_busy :
      (t : Socket) (p : SendMsg) (ps : List SendMsg)
      → IsBegun s t (p ∷ ps)
      → Begins s (busy t (p ∷ ps))

need-waiting : (p : SendMsg) (ps : List SendMsg) (w : List Chunk) → need [] w < need (p ∷ ps) w
need-waiting p ps [] = omega arith
need-waiting p ps (c ∷ cs) = omega arith

pub is_known-modify_event :
    (w : Watch) (old : Option Watch) → is_known (modify_event w old) ≡ is_known old
is_known-modify_event w none = refl
is_known-modify_event w (some old) = refl

-- The state after both lists were found empty.
emptied :
    (s t : Socket)
    → s.sending ≡ []
    → s.waiting ≡ []
    → IsSound s
    → t.sending ≡ s.sending
    → t.waiting ≡ s.waiting
    → t.wire ≡ s.wire
    → t.called ≡ s.called
    → Keeps s t
    → IsArmed t
    → IsFlushed s t
emptied s t e f v a b c d k armed = record {
  sound = record {
    ready = subst (All IsReady) (sym a) v.ready;
    filled = subst (All HasBytes) (sym b) v.filled;
    small = subst (λ w. length (bytes_of w) < 2 ^ 63) (sym b) v.small;
  };
  armed = armed;
  bytes = rw (a, b, c) refl;
  calls = rw (a, b, d) refl;
  left = rw (a, b) (IsLeft-refl (pieces s) (pieces-HasBytes s v));
  keeps = k;
}

emptied_poller :
    (now : ℕ) (s : Socket)
    → s.sending ≡ []
    → s.waiting ≡ []
    → IsSound s
    → IsArmed s
    → IsFlushed s (on_flushed (stop_write_able (record s { flushed_at = now })))
unfolding on_flushed stop_write_able
emptied_poller now s e f v armed =
    let known =
      is_known-modify_event (record { read = s.enable_recv; write = false }) s.watch
      ∙ armed.known in
    elim (Bool-cases (s.on_flush s.flushes)) [
      | inl again ↦ rw again (
          emptied s _ e f v refl refl refl refl
            (record { enable_recv = refl; err_emit = refl; errors = refl; has_fd = refl })
            (record { known = known; queued = inl e; busy = λ (x : true ≡ false). cc }))
      | inr no_more ↦ rw no_more (
          emptied s _ e f v refl refl refl refl
            (record { enable_recv = refl; err_emit = refl; errors = refl; has_fd = refl })
            (record { known = known; queued = inl e; busy = λ (x : true ≡ false). cc }))
    ]

pub begin_flush-Begins :
    (poller : Bool) (now : ℕ) (sending : List SendMsg) (waiting : List Chunk) (s : Socket)
    → s.sending ≡ sending
    → s.waiting ≡ waiting
    → IsSound s
    → Begins s (begin_flush poller now sending waiting s)
unfolding begin_flush
begin_flush-Begins poller now (p ∷ ps) waiting s e f v =
    begins_busy (record s { sending = [] }) p ps
      (record {
        ready = subst (All IsReady) e v.ready;
        filled = v.filled;
        small = v.small;
        sending = refl;
        chunks = rw e refl;
        bytes = rw e refl;
        calls = rw e refl;
        keeps = record { enable_recv = refl; err_emit = refl; errors = refl; has_fd = refl };
        sendable = refl;
        watch = refl;
        fewer = rw e (need-waiting p ps s.waiting);
      })
begin_flush-Begins poller now [] (c ∷ cs) s e f v =
    begins_busy (record s { flushed_at = now; waiting = [] }) (new_send_msg (c ∷ cs) []) []
      (let filled : All HasBytes (c ∷ cs) = subst (All HasBytes) f v.filled in
        let small : length (bytes_of (c ∷ cs)) < 2 ^ 63 =
          subst (λ w. length (bytes_of w) < 2 ^ 63) f v.small in
        record {
          ready = (new_send_msg-IsReady c cs [] filled small, tt);
          filled = tt;
          small = omega arith;
          chunks = rw (e, f) (append-nil _ ∙ append-nil _);
          sending = e;
          bytes = rw (e, f) (ap (λ b. s.wire ++ b) (append-nil _ ∙ append-nil _));
          calls = rw (e, f) (ap (λ b. s.called ++ b) (append-nil _ ∙ append-nil _));
          keeps = record { enable_recv = refl; err_emit = refl; errors = refl; has_fd = refl };
          sendable = refl;
          watch = refl;
          fewer = rw (e, f) (omega arith);
        })
begin_flush-Begins true now [] [] s e f v =
    begins_idle (on_flushed (stop_write_able (record s { flushed_at = now })))
      (λ armed. emptied_poller now s e f v armed)
begin_flush-Begins false now [] [] s e f v =
    begins_idle (record s { flushed_at = now })
      (λ armed.
        emptied s (record s { flushed_at = now }) e f v refl refl refl refl
          (record { enable_recv = refl; err_emit = refl; errors = refl; has_fd = refl })
          (record { known = armed.known; queued = inl e; busy = armed.busy }))
