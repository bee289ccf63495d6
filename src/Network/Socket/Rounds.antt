-- ===== src/Network/Socket/Rounds.antt =====
-- The rounds of `flushData`: each empties a list, so that three are enough.
use zltool_kit.Kit.{
  ℕ, suc, ◌<◌, ◌^◌, ◌≡◌, inl, inr, refl, sym, ap, ◌∙◌, Bool, true, false, List, [], ◌∷◌, ◌++◌,
  Option, none, some, All, length, append_assoc, append-nil, Bool-cases,
}
use mathlib.Core.Path.{subst}
use zltool_kit.Network.Kernel.{Answer, Chunk}
use zltool_kit.Network.SendMsg.{SendMsg, bytes_of, ids_of, calls_for}
use zltool_kit.Network.SendMsg.Conserve.{refusal}
use zltool_kit.Network.SendMsg.Cut.{HasBytes, IsLeft, IsLeft-append, IsLeft-behind, IsLeft-trans}
use zltool_kit.Network.Socket.{
  Socket, Watch, errno_fault, idle, busy, all_out, some_left, failed, emit_err, begin_flush,
  finish_flush, flush_data, send_packets, unsent, modify_event,
}
use zltool_kit.Network.Socket.Sound.{
  IsReady, IsSound, packet_bytes, packet_calls, packet_chunks, pieces, stream, outcome,
}
use zltool_kit.Network.Socket.Flush.{IsSame, IsAsked, carry}
use zltool_kit.Network.Socket.Stream.{
  is_known, writes, IsArmed, Keeps, IsFlushed, IsBroken, FlushEnds, flushed, broke, IsBegun,
  is_known-modify_event,
}

module _ (k : ℕ) (poller : Bool) (now : ℕ) (answers : List Answer) (s : Socket) where
  pub flush-idle :
      (t : Socket)
      → begin_flush poller now s.sending s.waiting s ≡ idle t
      → flush_data (suc k) poller now answers s ≡ some (t, (true, answers))
  unfolding flush_data
  flush-idle t e = rw (e, flush_data) refl

  module _ (t : Socket) (ps : List SendMsg) (rest : List Answer)
      (e : begin_flush poller now s.sending s.waiting s ≡ busy t ps) where
    pub flush-all_out :
        (u : Socket)
        → send_packets poller answers ps t ≡ some (all_out u, rest)
        → flush_data (suc k) poller now answers s
          ≡ finish_flush poller (all_out u) rest (flush_data k poller now rest u)
    unfolding flush_data
    flush-all_out u f = rw (e, f, flush_data) refl

    pub flush-some_left :
        (u : Socket) (left : List SendMsg)
        → send_packets poller answers ps t ≡ some (some_left u left, rest)
        → flush_data (suc k) poller now answers s
          ≡ some (record u { sending = left ++ u.sending }, (true, rest))
    unfolding flush_data
    flush-some_left u left f = rw (e, f, flush_data) refl

    pub flush-failed :
        (u : Socket)
        → send_packets poller answers ps t ≡ some (failed u, rest)
        → flush_data (suc k) poller now answers s ≡ some (u, (false, rest))
    unfolding flush_data
    flush-failed u f = rw (e, f, flush_data) refl

pub writes-modify_event :
    (w : Watch) (old : Option Watch)
    → is_known (modify_event w old) ≡ true
    → writes (modify_event w old) ≡ w.write
writes-modify_event w none h = cc
writes-modify_event w (some old) h = refl

-- What holds before a flush: on the poller's thread, the poller watches for the socket being writable.
pub record IsTold (poller : Bool) (s : Socket) : Type 0 where
  pub armed : IsArmed s
  pub told : poller ≡ true → writes s.watch ≡ true

pub FlushEnds-trans :
    (answers rest : List Answer) (s u t : Socket) (ok : Bool)
    → refusal rest ≡ refusal answers
    → IsLeft (pieces s) (pieces u)
    → stream u ≡ stream s
    → outcome u ≡ outcome s
    → Keeps s u
    → FlushEnds rest u t ok
    → FlushEnds answers s t ok
FlushEnds-trans answers rest s u t ok same l b c k (flushed f) = flushed (record {
  left = IsLeft-trans (pieces s) (pieces u) (pieces t) l f.left;
  sound = f.sound;
  armed = f.armed;
  bytes = f.bytes ∙ b;
  calls = f.calls ∙ c;
  keeps = record {
    enable_recv = f.keeps.enable_recv ∙ k.enable_recv;
    err_emit = f.keeps.err_emit ∙ k.err_emit;
    errors = f.keeps.errors ∙ k.errors;
    has_fd = f.keeps.has_fd ∙ k.has_fd;
  };
})
FlushEnds-trans answers rest s u t ok same l b c k (broke f) = broke (record {
  unsent_left =
      IsLeft-trans (pieces s) (pieces u) (packet_chunks f.left ++ t.waiting) l f.unsent_left;
  told = sym same ∙ f.told;
  left = f.left;
  done = f.done;
  error = f.error;
  bytes = f.bytes ∙ b;
  calls = f.calls ∙ c;
  called = f.called;
  err_emit = f.err_emit;
  errors = f.errors ∙ rw (k.err_emit, k.errors) refl;
  sending = f.sending;
})

pub Keeps-trans : {s t u : Socket} → Keeps s t → IsSame t u → Keeps s u
Keeps-trans k i = record {
  enable_recv = i.enable_recv ∙ k.enable_recv;
  err_emit = i.err_emit ∙ k.err_emit;
  errors = i.errors ∙ k.errors;
  has_fd = i.has_fd ∙ k.has_fd;
}

module _ (s t : Socket) (ps : List SendMsg) (g : IsBegun s t ps) where
  pub out-IsSound : (u : Socket) → IsSame t u → IsSound u
  out-IsSound u i = record {
    ready = subst (All IsReady) (sym (i.sending ∙ g.sending)) tt;
    filled = subst (All HasBytes) (sym i.waiting) g.filled;
    small = subst (λ w. length (bytes_of w) < 2 ^ 63) (sym i.waiting) g.small;
  }

  kept_on : (ds : List Chunk) → IsLeft (packet_chunks ps) ds → IsLeft (pieces s) (ds ++ t.waiting)
  kept_on ds l =
      subst (λ z. IsLeft z (ds ++ t.waiting)) g.chunks
        (IsLeft-append (packet_chunks ps) ds t.waiting g.filled l)

  pub out-IsLeft : (u : Socket) → IsSame t u → IsLeft (pieces s) (pieces u)
  out-IsLeft u i =
      rw (i.sending, g.sending, i.waiting)
        (subst (λ z. IsLeft z t.waiting) g.chunks
          (IsLeft-behind (packet_chunks ps) t.waiting g.filled))

  pub out-stream :
      (u : Socket) → IsSame t u → u.wire ≡ t.wire ++ packet_bytes ps → stream u ≡ stream s
  out-stream u i h =
      rw (i.sending, g.sending, i.waiting, h)
        (append_assoc t.wire (packet_bytes ps) (bytes_of t.waiting) ∙ g.bytes)

  pub out-outcome :
      (u : Socket) → IsSame t u → u.called ≡ t.called ++ packet_calls ps → outcome u ≡ outcome s
  out-outcome u i h =
      rw (i.sending, g.sending, i.waiting, h)
        (append_assoc t.called (packet_calls ps) (calls_for true (ids_of t.waiting)) ∙ g.calls)

  pub out-IsArmed :
      (u : Socket)
      → IsSame t u
      → u.sendable ≡ t.sendable
      → u.watch ≡ t.watch
      → IsArmed s
      → IsArmed u
  out-IsArmed u i a b armed = record {
    known = ap is_known (b ∙ g.watch) ∙ armed.known;
    queued = inl (i.sending ∙ g.sending);
    busy = λ x. ap writes (b ∙ g.watch) ∙ armed.busy (sym (a ∙ g.sendable) ∙ x);
  }

  asked-writes :
      (poller : Bool) (u : Socket)
      → IsAsked poller t u
      → IsTold poller s
      → (is_known u.watch ≡ true) × (writes u.watch ≡ true)
  asked-writes true u a told =
      let same = a.watch ∙ g.watch in
      (ap is_known same ∙ told.armed.known, ap writes same ∙ told.told refl)
  asked-writes false u a told =
      let w : Watch = record { read = t.enable_recv; write = true } in
      let known = is_known-modify_event w t.watch ∙ (ap is_known g.watch ∙ told.armed.known) in
      (ap is_known a.watch ∙ known, ap writes a.watch ∙ writes-modify_event w t.watch known)

  pub left-IsFlushed :
      (poller : Bool) (u : Socket) (left : List SendMsg)
      → IsSame t u
      → IsAsked poller t u
      → IsTold poller s
      → All IsReady left
      → u.wire ++ packet_bytes left ≡ t.wire ++ packet_bytes ps
      → u.called ++ packet_calls left ≡ t.called ++ packet_calls ps
      → IsLeft (packet_chunks ps) (packet_chunks left)
      → IsFlushed s (record u { sending = left ++ u.sending })
  left-IsFlushed poller u left i a told v b c l =
      let (known, armed) = asked-writes poller u a told in
      let alone : left ++ u.sending ≡ left =
        ap (◌++◌ left) (i.sending ∙ g.sending) ∙ append-nil left in
      record {
        sound = record {
          ready = subst (All IsReady) (sym alone) v;
          filled = subst (All HasBytes) (sym i.waiting) g.filled;
          small = subst (λ w. length (bytes_of w) < 2 ^ 63) (sym i.waiting) g.small;
        };
        armed = record { known = known; queued = inr armed; busy = λ x. armed };
        bytes =
            rw (alone, i.waiting)
              (carry u.wire (packet_bytes left) t.wire (packet_bytes ps) (bytes_of t.waiting) b
                ∙ g.bytes);
        calls =
            rw (alone, i.waiting)
              (carry u.called (packet_calls left) t.called (packet_calls ps)
                  (calls_for true (ids_of t.waiting)) c
                ∙ g.calls);
        left = rw (alone, i.waiting) (kept_on (packet_chunks left) l);
        keeps = record {
          enable_recv = i.enable_recv ∙ g.keeps.enable_recv;
          err_emit = i.err_emit ∙ g.keeps.err_emit;
          errors = i.errors ∙ g.keeps.errors;
          has_fd = i.has_fd ∙ g.keeps.has_fd;
        };
      }

  pub failed-IsBroken :
      (answers : List Answer) (v : Socket) (left : List SendMsg) (e : ℕ)
      → IsSame t v
      → v.wire ++ packet_bytes left ≡ t.wire ++ packet_bytes ps
      → v.called ++ packet_calls left ≡ t.called ++ packet_calls ps
      → IsLeft (packet_chunks ps) (packet_chunks left)
      → refusal answers ≡ some e
      → IsBroken answers s (record (emit_err (errno_fault e) v) {
        called = (emit_err (errno_fault e) v).called ++ unsent left;
      })
  unfolding emit_err
  failed-IsBroken answers v left e i b c l told =
      let unsent_left : IsLeft (pieces s) (packet_chunks left ++ v.waiting) =
        rw i.waiting (kept_on (packet_chunks left) l) in
      let bytes : v.wire ++ (packet_bytes left ++ bytes_of v.waiting) ≡ stream s = rw i.waiting (
        carry v.wire (packet_bytes left) t.wire (packet_bytes ps) (bytes_of t.waiting) b
        ∙ g.bytes) in
      let calls : v.called ++ (packet_calls left ++ calls_for true (ids_of v.waiting)) ≡ outcome s =
        rw i.waiting (
          carry v.called (packet_calls left) t.called (packet_calls ps)
            (calls_for true (ids_of t.waiting)) c
          ∙ g.calls) in
      let kept = i.err_emit ∙ g.keeps.err_emit in
      let errors = i.errors ∙ g.keeps.errors in
      let sending = i.sending ∙ g.sending in
      elim (Bool-cases v.err_emit) [
        | inl before ↦ rw before (record {
          left = left;
          done = v.called;
          error = e;
          unsent_left = unsent_left;
          told = told;
          bytes = bytes;
          calls = calls;
          called = refl;
          err_emit = refl;
          errors = rw (sym kept ∙ before) errors;
          sending = sending;
        })
        | inr first ↦ rw first (record {
          left = left;
          done = v.called;
          error = e;
          unsent_left = unsent_left;
          told = told;
          bytes = bytes;
          calls = calls;
          called = refl;
          err_emit = refl;
          errors = rw (sym kept ∙ first) (ap (λ x. x ++ (errno_fault e ∷ [])) errors);
          sending = sending;
        })
      ]
