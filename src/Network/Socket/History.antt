-- ===== src/Network/Socket/History.antt =====
-- A socket over its life: what may happen to it, step after step, and how it ends.
use zltool_kit.Kit.{
  result_of, ℕ, ◌+◌, ◌<◌, ◌^◌, ◌≡◌, ◌⊎◌, inl, inr, refl, sym, ap, ◌∙◌, Bool, true, false, not, ◌&&◌,
  List, [], ◌∷◌, ◌++◌, Option, none, some, length, append_assoc, append-nil, Bool-cases,
}
use mathlib.Core.Path.{subst}
use zltool_kit.Network.Kernel.{Answer, Chunk}
use zltool_kit.Network.SendMsg.{bytes_of}
use zltool_kit.Network.SendMsg.Conserve.{stops, refusal}
use zltool_kit.Network.Socket.{
  Socket, Watch, Fault, flush_all, on_write_able, send_l, set_enable_recv, same, run_error, unsent,
  alive, Flushed, errno_fault, flush_data, rounds,
}
use zltool_kit.Network.Socket.Sound.{IsSound, stream}
use zltool_kit.Network.SendMsg.Cut.{HasBytes}
use zltool_kit.Network.Socket.Stream.{
  writes, IsArmed, FlushEnds, flushed, broke, is_known-modify_event,
}
use zltool_kit.Network.Socket.Rounds.{IsTold, writes-modify_event}
use zltool_kit.Network.Socket.Total.{flush_data_lem}
use zltool_kit.Network.Socket.Ops.{
  AllEnds, ended, no_socket, timed_out, SendEnds, sent, not_sent, stream-queue, flush_all_lem,
  on_write_able_lem, send_l_lem,
}

-- One operation that does not fail, and the bytes that it accepts. The poller reports that the socket is
-- writable only while it watches for that. Reception is switched only while nothing is in the
-- second-level list or the socket counts as not writable.
pub data Step (s : Socket) : List ℕ → Socket → Type 0 where
  sends :
      (buf : Chunk) (try_flush : Bool) (now size : ℕ) (answers rest : List Answer) (t : Socket)
      → HasBytes buf
      → length (bytes_of s.waiting) + length buf.rest < 2 ^ 63
      → stops answers ≡ true
      → send_l buf try_flush now answers s ≡ some (t, (some size, rest))
      → Step s buf.rest t
  flushes :
      (now : ℕ) (answers rest : List Answer) (t : Socket)
      → stops answers ≡ true
      → flush_all now answers s ≡ some (t, (true, rest))
      → Step s [] t
  is_writable :
      (now : ℕ) (answers rest : List Answer) (t : Socket)
      → writes s.watch ≡ true
      → stops answers ≡ true
      → on_write_able now answers s ≡ some (t, (true, rest))
      → Step s [] t
  receives :
      (enabled : Bool)
      → (s.sending ≡ []) ⊎ (s.sendable ≡ false)
      → Step s [] (set_enable_recv enabled s)

-- The operations one after the other, and all the bytes they accept.
pub data Steps (s : Socket) : List ℕ → Socket → Type 0 where
  start : Steps s [] s
  then_step :
      (t u : Socket) (bytes more : List ℕ)
      → Steps s bytes t
      → Step t more u
      → Steps s (bytes ++ more) u

-- What a step keeps and what it adds.
record IsKept (s t : Socket) (more : List ℕ) : Type 0 where
  sound : IsSound t
  armed : IsArmed t
  bytes : stream t ≡ stream s ++ more

after_flush :
    (answers : List Answer) (s t t1 : Socket) (ok : Bool) (rest rest1 : List Answer) (r : Flushed)
    → r ≡ some (t, (ok, rest))
    → r ≡ some (t1, (true, rest1))
    → FlushEnds answers s t ok
    → IsKept s t1 []
after_flush answers s t t1 ok rest rest1 r e h (flushed f) =
    let same_state : t ≡ t1 = ap (λ r. r.0) (result_of (sym e ∙ h)) in
    subst (λ u. IsKept s u []) same_state
      (record { sound = f.sound; armed = f.armed; bytes = f.bytes ∙ sym (append-nil (stream s)) })
after_flush answers s t t1 ok rest rest1 r e h (broke f) =
    let never : false ≡ true = ap (λ r. r.1.0) (result_of (sym e ∙ h)) in cc

after_all :
    (answers : List Answer) (s t t1 : Socket) (ok : Bool) (rest rest1 : List Answer) (r : Flushed)
    → r ≡ some (t, (ok, rest))
    → r ≡ some (t1, (true, rest1))
    → AllEnds answers s t ok
    → IsKept s t1 []
after_all answers s t t1 ok rest rest1 r e h (ended x) =
    after_flush answers s t t1 ok rest rest1 r e h x
after_all answers s t t1 ok rest rest1 r e h (no_socket a b c) =
    let never : ok ≡ true = ap (λ r. r.1.0) (result_of (sym e ∙ h)) in cc
after_all answers s t t1 ok rest rest1 r e h (timed_out a b c) =
    let never : ok ≡ true = ap (λ r. r.1.0) (result_of (sym e ∙ h)) in cc

after_send_l :
    (answers : List Answer) (buf : Chunk) (s t t1 : Socket) (reply : Option ℕ) (size : ℕ)
    (rest rest1 : List Answer) (r : Option (Socket × (Option ℕ × List Answer)))
    → r ≡ some (t, (reply, rest))
    → r ≡ some (t1, (some size, rest1))
    → SendEnds answers buf s t reply
    → IsKept s t1 buf.rest
after_send_l answers buf s t t1 reply size rest rest1 r e h (sent f) =
    let same_state : t ≡ t1 = ap (λ r. r.0) (result_of (sym e ∙ h)) in
    subst (λ u. IsKept s u buf.rest) same_state
      (record { sound = f.sound; armed = f.armed; bytes = f.bytes ∙ stream-queue buf s })
after_send_l answers buf s t t1 reply size rest rest1 r e h (not_sent x) =
    let never : none ≡ some size = ap (λ r. r.1.0) (result_of (sym e ∙ h)) in cc

after_receive :
    (enabled : Bool) (s : Socket)
    → (s.sending ≡ []) ⊎ (s.sendable ≡ false)
    → IsSound s
    → IsArmed s
    → IsKept s (set_enable_recv enabled s) []
unfolding set_enable_recv
after_receive enabled s h v a =
    let w : Watch = record { read = enabled; write = not s.sendable } in
    let known = is_known-modify_event w s.watch ∙ a.known in
    let writing = writes-modify_event w s.watch known in
    let all = sym (append-nil (stream s)) in
    elim (Bool-cases (same s.enable_recv enabled)) [
      | inl unchanged ↦ rw unchanged (record { sound = v; armed = a; bytes = all })
      | inr changed ↦ rw changed (record {
        sound = record { ready = v.ready; filled = v.filled; small = v.small };
        armed = record {
          known = known;
          queued = elim h [ inl out ↦ inl out | inr busy ↦ inr (writing ∙ ap not busy) ];
          busy = λ busy. writing ∙ ap not busy;
        };
        bytes = all;
      })
    ]

step_lem :
    (s : Socket) {t : Socket} {more : List ℕ}
    → IsSound s
    → IsArmed s
    → Step s more t
    → IsKept s t more
step_lem s v a (sends buf try_flush now size answers rest t h small w e) =
    let (t1, reply, rest1, f, x) = send_l_lem buf try_flush now answers s v a h small w in
    after_send_l answers buf s t1 t reply size rest1 rest (send_l buf try_flush now answers s) f e x
step_lem s v a (flushes now answers rest t w e) =
    let (t1, ok, rest1, f, x) = flush_all_lem now answers s v a w in
    after_all answers s t1 t ok rest1 rest (flush_all now answers s) f e x
step_lem s v a (is_writable now answers rest t told w e) =
    let (t1, ok, rest1, f, x) = on_write_able_lem now answers s v a told w in
    after_flush answers s t1 t ok rest1 rest (on_write_able now answers s) f e x
step_lem s v a (receives enabled h) = after_receive enabled s h v a

-- Whatever is sent and flushed, in any order, on whatever the kernel takes, with the socket reported writable only while the
-- poller watches for that, and with reception switched only while nothing is in the second-level list or the
-- socket counts as not writable: as long as no operation fails, what the kernel has, then the second-level list, then the first-level list, are
-- exactly the bytes accepted, in the order of acceptance; and the poller watches for the socket being
-- writable while packets are left over or the socket counts as not writable.
pub steps_lem :
    (s : Socket) {t : Socket} {bytes : List ℕ}
    → IsSound s
    → IsArmed s
    → Steps s bytes t
    → (stream t ≡ stream s ++ bytes) × IsSound t × IsArmed t
steps_lem s v a start = (sym (append-nil (stream s)), v, a)
steps_lem s v a (then_step t1 t first more xs x) =
    let (b, v1, a1) = steps_lem s v a xs in
    let k = step_lem t1 v1 a1 x in
    (k.bytes ∙ ap (λ z. z ++ more) b ∙ append_assoc (stream s) first more, k.sound, k.armed)

-- How a socket ends: what the posted task of `emitErr` leaves.
pub record IsClosed (t u : Socket) (f : Fault) : Type 0 where
  pub reported : u.reported ≡ t.reported ++ (f ∷ [])
  pub errors : u.errors ≡ []
  pub sending : u.sending ≡ []
  pub waiting : u.waiting ≡ []
  pub watch : u.watch ≡ none
  pub dead : alive u ≡ false
  pub called : u.called ≡ t.called
  pub wire : u.wire ≡ t.wire

not_alive : (has emitted : Bool) → emitted ≡ true → (has && not emitted) ≡ false
not_alive true emitted h = ap not h
not_alive false emitted h = refl

run_error-IsClosed :
    (later : ℕ) (t : Socket) (f : Fault)
    → t.errors ≡ f ∷ []
    → t.err_emit ≡ true
    → t.sending ≡ []
    → IsClosed t (run_error later t.errors t) f
unfolding run_error alive
run_error-IsClosed later t f e emitted out = rw e (record {
  reported = refl;
  errors = refl;
  sending = refl;
  waiting = refl;
  watch = refl;
  dead = not_alive t.has_fd t.err_emit emitted;
  called = ap (λ p. t.called ++ unsent p) out ∙ append-nil t.called;
  wire = refl;
})

closed_lem :
    (answers : List Answer) (later : ℕ) (s t t1 : Socket) (ok : Bool) (rest rest1 : List Answer)
    (r : Flushed)
    → r ≡ some (t, (ok, rest))
    → r ≡ some (t1, (false, rest1))
    → s.err_emit ≡ false
    → s.errors ≡ []
    → FlushEnds answers s t ok
    → (e : ℕ) × (refusal answers ≡ some e)
      × IsClosed t1 (run_error later t1.errors t1) (errno_fault e)
closed_lem answers later s t t1 ok rest rest1 r e h fresh none_yet (flushed f) =
    let never : true ≡ false = ap (λ r. r.1.0) (result_of (sym e ∙ h)) in cc
closed_lem answers later s t t1 ok rest rest1 r e h fresh none_yet (broke f) =
    let same_state : t ≡ t1 = ap (λ r. r.0) (result_of (sym e ∙ h)) in
    let errors : t.errors ≡ errno_fault f.error ∷ [] = f.errors ∙ rw (fresh, none_yet) refl in
    subst
      (λ u.
        (e : ℕ) × (refusal answers ≡ some e)
        × IsClosed u (run_error later u.errors u) (errno_fault e))
      same_state
      (
        f.error,
        f.told,
        run_error-IsClosed later t (errno_fault f.error) errors f.err_emit f.sending,
      )

-- If `flushData` fails on a socket that has met no error yet, then the task that it posts calls the error
-- callback once, with the error of the kernel's first refusal, empties both lists, and leaves a socket that the poller does not
-- watch and that is not alive. No call of the send callback is made for what was in the first-level
-- list.
pub fails_lem :
    (poller : Bool) (now later : ℕ) (answers rest : List Answer) (s t : Socket)
    → IsSound s
    → IsTold poller s
    → stops answers ≡ true
    → s.err_emit ≡ false
    → s.errors ≡ []
    → flush_data rounds poller now answers s ≡ some (t, (false, rest))
    → (e : ℕ) × (refusal answers ≡ some e) × IsClosed t (run_error later t.errors t) (errno_fault e)
fails_lem poller now later answers rest s t v told w fresh none_yet e =
    let (t1, ok, rest1, f, x) = flush_data_lem poller now answers s v told w in
    closed_lem answers later s t1 t ok rest1 rest (flush_data rounds poller now answers s) f e fresh
      none_yet x
