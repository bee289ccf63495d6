-- ===== src/Network/Socket/Flush.antt =====
-- `flushData`: what it sends, keeps and reports.
use zltool_kit.Kit.{
  ℕ, ◌<◌, ◌≡◌, refl, sym, ap, ◌∙◌, Bool, true, false, ◌&&◌, List, [], ◌∷◌, ◌++◌, Option, some, All,
  arith, if◌then◌else◌, append_assoc, append-nil,
}
use zltool_kit.Network.Kernel.{Answer, Chunk}
use zltool_kit.Network.SendMsg.{SendMsg, bytes_of, ids_of, calls_for, send_loop}
use zltool_kit.Network.SendMsg.Conserve.{stops, refusal}
use zltool_kit.Network.SendMsg.Cut.{HasBytes, IsLeft, IsLeft-append, IsLeft-behind, IsLeft-trans}
use zltool_kit.Network.Socket.{
  Socket, errno_fault, Round, all_out, some_left, failed, judge, lend, regain, emit_err,
  start_write_able, wait_writable, after_send, send_packets, unsent, modify_event,
}
use zltool_kit.Network.Socket.Sound.{
  IsReady, packet_bytes, packet_calls, packet_chunks, packet_chunks-HasBytes, errno-refusal,
  send_one, Moves, is_complete, is_blocked, is_broken, judge-Judged,
}

-- What a round leaves alone.
pub record IsSame (s u : Socket) : Type 0 where
  pub waiting : u.waiting ≡ s.waiting
  pub enable_recv : u.enable_recv ≡ s.enable_recv
  pub err_emit : u.err_emit ≡ s.err_emit
  pub sending : u.sending ≡ s.sending
  pub errors : u.errors ≡ s.errors
  pub has_fd : u.has_fd ≡ s.has_fd

-- The write event after a round that leaves packets: on the poller's thread it is left alone.
pub record IsAsked (poller : Bool) (s u : Socket) : Type 0 where
  pub sendable : u.sendable ≡ (poller && s.sendable)
  pub watch : u.watch ≡ (
      if poller
      then s.watch
      else modify_event (record { read = s.enable_recv; write = true }) s.watch)

-- How a round over the packets `ps` may end: all are out, some are left or the socket has failed.
pub data Ends (poller : Bool) (answers : List Answer) (ps : List SendMsg) (s : Socket)
    : Round → List Answer → Type 0 where
  ends_out :
      (u : Socket) (rest : List Answer)
      → IsSame s u
      → u.sendable ≡ s.sendable
      → u.watch ≡ s.watch
      → u.wire ≡ s.wire ++ packet_bytes ps
      → u.called ≡ s.called ++ packet_calls ps
      → stops rest ≡ true
      → refusal rest ≡ refusal answers
      → Ends poller answers ps s (all_out u) rest
  ends_left :
      (u : Socket) (p : SendMsg) (left : List SendMsg) (rest : List Answer)
      → IsSame s u
      → IsAsked poller s u
      → All IsReady (p ∷ left)
      → u.wire ++ packet_bytes (p ∷ left) ≡ s.wire ++ packet_bytes ps
      → u.called ++ packet_calls (p ∷ left) ≡ s.called ++ packet_calls ps
      → IsLeft (packet_chunks ps) (packet_chunks (p ∷ left))
      → Ends poller answers ps s (some_left u (p ∷ left)) rest
  ends_failed :
      (v u : Socket) (left : List SendMsg) (e : ℕ) (rest : List Answer)
      → IsSame s v
      → v.wire ++ packet_bytes left ≡ s.wire ++ packet_bytes ps
      → v.called ++ packet_calls left ≡ s.called ++ packet_calls ps
      → u ≡ record (emit_err (errno_fault e) v) {
        called = (emit_err (errno_fault e) v).called ++ unsent left;
      }
      → IsLeft (packet_chunks ps) (packet_chunks left)
      → refusal answers ≡ some e
      → Ends poller answers ps s (failed u) rest

-- What is true up to a point of a list stays true with more behind it.
pub carry : {A : Type 0} (a b c d r : List A) → a ++ b ≡ c ++ d → a ++ (b ++ r) ≡ c ++ (d ++ r)
carry a b c d r h = sym (append_assoc a b r) ∙ ap (λ z. z ++ r) h ∙ append_assoc c d r

-- Lending a packet changes nothing that a round leaves alone.
IsSame-regain :
    (s : Socket) (t : SendMsg) (error : Option ℕ) {u : Socket}
    → IsSame (regain s t error) u
    → IsSame s u
IsSame-regain s t error k = record {
  waiting = k.waiting;
  enable_recv = k.enable_recv;
  err_emit = k.err_emit;
  sending = k.sending;
  errors = k.errors;
  has_fd = k.has_fd;
}

IsSame-refl : (s : Socket) → IsSame s s
IsSame-refl s = record {
  waiting = refl;
  enable_recv = refl;
  err_emit = refl;
  sending = refl;
  errors = refl;
  has_fd = refl;
}

module _ (answers : List Answer) (s : Socket) (p t : SendMsg) (ps : List SendMsg) (error : Option ℕ)
    (rest : List Answer) (x : Moves answers s p t error rest) (ready : All IsReady ps) where
  filled : All HasBytes (packet_chunks ps)
  filled = packet_chunks-HasBytes ps ready

  kept_on : IsLeft (packet_chunks (p ∷ ps)) (packet_chunks (t ∷ ps))
  kept_on = IsLeft-append p.chunks t.chunks (packet_chunks ps) filled x.left

  kept_out : (ds : List Chunk) → IsLeft (packet_chunks ps) ds → IsLeft (packet_chunks (p ∷ ps)) ds
  kept_out ds l =
      IsLeft-trans (packet_chunks (p ∷ ps)) (packet_chunks ps) ds
        (IsLeft-behind p.chunks (packet_chunks ps) filled) l

  bytes_on : t.wire ++ packet_bytes (t ∷ ps) ≡ s.wire ++ packet_bytes (p ∷ ps)
  bytes_on = carry t.wire (bytes_of t.chunks) s.wire (bytes_of p.chunks) (packet_bytes ps) x.bytes

  calls_on : t.called ++ packet_calls (t ∷ ps) ≡ s.called ++ packet_calls (p ∷ ps)
  calls_on =
      carry t.called (calls_for true (ids_of t.chunks)) s.called (calls_for true (ids_of p.chunks))
        (packet_calls ps) x.calls

  bytes_out : t.remain_size ≡ 0 → t.wire ++ packet_bytes ps ≡ s.wire ++ packet_bytes (p ∷ ps)
  bytes_out z =
      ap (λ c. t.wire ++ (bytes_of c ++ packet_bytes ps)) (sym (x.whole.drained z)) ∙ bytes_on

  calls_out : t.remain_size ≡ 0 → t.called ++ packet_calls ps ≡ s.called ++ packet_calls (p ∷ ps)
  calls_out z =
      ap (λ c. t.called ++ (calls_for true (ids_of c) ++ packet_calls ps)) (sym (x.whole.drained z))
      ∙ calls_on

  after_complete :
      (poller : Bool)
      → t.remain_size ≡ 0
      → {round : Round} {left : List Answer} → Ends poller rest ps (regain s t error) round left
      → Ends poller answers (p ∷ ps) s round left
  after_complete poller z (ends_out u left k a b wire calls w same) =
      ends_out u left (IsSame-regain s t error k) a b (wire ∙ bytes_out z) (calls ∙ calls_out z) w
        (same ∙ x.still z)
  after_complete poller z (ends_left u q qs left k a v wire calls l) =
      ends_left u q qs left (IsSame-regain s t error k)
        (record { sendable = a.sendable; watch = a.watch }) v (wire ∙ bytes_out z)
        (calls ∙ calls_out z) (kept_out (packet_chunks (q ∷ qs)) l)
  after_complete poller z (ends_failed v u qs e left k wire calls f l told) =
      ends_failed v u qs e left (IsSame-regain s t error k) (wire ∙ bytes_out z)
        (calls ∙ calls_out z) f (kept_out (packet_chunks qs) l) (sym (x.still z) ∙ told)

  after_blocked :
      (poller : Bool)
      → 0 < t.remain_size
      → Ends poller answers
          (p ∷ ps)
          s
          (some_left (wait_writable poller (regain s t error)) (t ∷ ps))
          rest
  unfolding start_write_able
  after_blocked true z =
      ends_left (regain s t error) t ps rest
        (IsSame-regain s t error (IsSame-refl (regain s t error)))
        (record { sendable = refl; watch = refl }) (record { whole = x.whole; more = z }, ready)
        bytes_on calls_on kept_on
  after_blocked false z =
      ends_left (start_write_able (regain s t error)) t ps rest
        (record {
          waiting = refl;
          enable_recv = refl;
          err_emit = refl;
          sending = refl;
          errors = refl;
          has_fd = refl;
        })
        (record { sendable = refl; watch = refl }) (record { whole = x.whole; more = z }, ready)
        bytes_on calls_on kept_on

  after_broken :
      (poller : Bool) (e : ℕ)
      → refusal answers ≡ some e
      → Ends poller answers
          (p ∷ ps)
          s
          (failed (record (emit_err (errno_fault e) (regain s t error)) {
            called = (emit_err (errno_fault e) (regain s t error)).called ++ unsent (t ∷ ps);
          }))
          rest
  after_broken poller e told =
      ends_failed (regain s t error)
        (record (emit_err (errno_fault e) (regain s t error)) {
          called = (emit_err (errno_fault e) (regain s t error)).called ++ unsent (t ∷ ps);
        })
        (t ∷ ps) e rest (IsSame-regain s t error (IsSame-refl (regain s t error))) bytes_on calls_on
        refl kept_on told

pub send_packets-cons :
    (poller : Bool) (answers : List Answer) (p : SendMsg) (ps : List SendMsg) (s : Socket)
    → (t : SendMsg) (error : Option ℕ) (rest : List Answer)
    → send_loop answers (lend s p) ≡ some (t, (error, rest))
    → send_packets poller answers (p ∷ ps) s
      ≡ after_send poller
          (judge p.remain_size t.remain_size (regain s t error).errno)
          t
          ps
          (regain s t error)
          rest
          (send_packets poller rest ps (regain s t error))
unfolding send_packets
send_packets-cons poller answers p ps s t error rest e = rw (e, send_packets) refl

pub send_packets-Ends :
    (poller : Bool) (answers : List Answer) (ps : List SendMsg) (s : Socket)
    → All IsReady ps
    → stops answers ≡ true
    → (round : Round) × (rest : List Answer) × (send_packets poller answers ps s
        ≡ some (round, rest))
      × Ends poller answers ps s round rest
unfolding send_packets after_send
send_packets-Ends poller answers [] s v w = (
  all_out s,
  answers,
  refl,
  ends_out s answers
      (record {
        waiting = refl;
        enable_recv = refl;
        err_emit = refl;
        sending = refl;
        errors = refl;
        has_fd = refl;
      })
      refl refl (sym (append-nil s.wire)) (sym (append-nil s.called)) w refl,
)
send_packets-Ends poller answers (p ∷ ps) s v w =
    let (t, error, rest, e, x) = send_one answers s p v.0 w in
    let u = regain s t error in
    elim (judge-Judged p.remain_size t.remain_size u.errno v.0.more) [
      | is_complete j z ↦
          let (round, rest1, e1, x1) = send_packets-Ends poller rest ps u v.1 (x.pending z) in
          (
            round,
            rest1,
            send_packets-cons poller answers p ps s t error rest e ∙ rw j e1,
            after_complete answers s p t ps error rest x v.1 poller z x1,
          )
      | is_blocked j z ↦ (
        some_left (wait_writable poller u) (t ∷ ps),
        rest,
        send_packets-cons poller answers p ps s t error rest e ∙ rw j refl,
        after_blocked answers s p t ps error rest x v.1 poller z,
      )
      | is_broken j z n ↦ (
        failed (record (emit_err (errno_fault u.errno) u) {
          called = (emit_err (errno_fault u.errno) u).called ++ unsent (t ∷ ps);
        }),
        rest,
        send_packets-cons poller answers p ps s t error rest e ∙ rw j refl,
        after_broken answers s p t ps error rest x v.1 poller u.errno
            (errno-refusal answers s p t error rest x (omega (arith, z, v.0.more))),
      )
    ]
