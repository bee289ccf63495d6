-- ===== src/Network/Socket.antt =====
-- The sending side of `Socket` (src/Network/Socket.cpp), for a TCP socket: the first-level list
-- (`waiting`), the second-level list (`sending`), the write event of the poller, and what is reported.
-- One operation runs after the other. A call that sends takes the kernel's answers from a list and is
-- `none` where the list is too short. `wire` and `called` are as in `SendMsg`: the socket owns the
-- descriptor and the callback, so they are handed to a packet while it is sent. `errors` are the tasks
-- that `emitErr` has posted, and `reported` the calls of `_on_err`. The locks, the statistics of speed and
-- the timer of `connect` are left out.
mod Sound
mod Flush
mod Stream
mod Rounds
mod Total
mod Ops
mod History
mod Starve
mod Tests
use zltool_kit.Kit.{
  ℕ, zero, suc, Bool, true, false, not, ◌&&◌, List, [], ◌∷◌, ◌++◌, Option, none, some, ltb, leb,
  ◌==◌, if◌then◌else◌, length, map, concat,
}
use zltool_kit.Kit.Words.{sub64}
use zltool_kit.Network.Kernel.{Answer, Chunk}
use zltool_kit.Network.SendMsg.{SendMsg, ids_of, calls_for, new_send_msg, send_loop}

-- What the poller watches the descriptor for, beside errors.
pub record Watch : Type 0 where
  pub read : Bool
  pub write : Bool

pub data Fault : Type 0 where
  errno_fault : ℕ → Fault
  end_of_file : Fault
  send_timeout : Fault

pub record Socket : Type 0 where
  pub has_fd : Bool
  pub watch : Option Watch
  pub waiting : List Chunk
  pub sending : List SendMsg
  pub sendable : Bool
  pub enable_recv : Bool
  pub err_emit : Bool
  pub flushed_at : ℕ
  pub max_send_buffer_ms : ℕ
  pub errno : ℕ
  pub on_flush : ℕ → Bool
  pub flushes : ℕ
  pub errors : List Fault
  pub reported : List Fault
  pub wire : List ℕ
  pub called : List (ℕ × Bool)

-- `EAGAIN`, as Linux numbers it.
abbrev pub eagain : ℕ
eagain = 11

-- `modifyEvent`: the poller knows the descriptor or not.
abbrev pub modify_event : Watch → Option Watch → Option Watch
modify_event w none = none
modify_event w (some old) = some w

unfoldable pub start_write_able : Socket → Socket
start_write_able s = record s {
  sendable = false;
  watch = modify_event (record { read = s.enable_recv; write = true }) s.watch;
}

unfoldable pub stop_write_able : Socket → Socket
stop_write_able s = record s {
  sendable = true;
  watch = modify_event (record { read = s.enable_recv; write = false }) s.watch;
}

abbrev pub same : Bool → Bool → Bool
same true b = b
same false b = not b

unfoldable pub set_enable_recv : Bool → Socket → Socket
set_enable_recv enabled s = if same s.enable_recv enabled then s else record s {
  enable_recv = enabled;
  watch = modify_event (record { read = enabled; write = not s.sendable }) s.watch;
}

unfoldable pub emit_err : Fault → Socket → Socket
emit_err f s = if s.err_emit then s else record s { err_emit = true; errors = s.errors ++ (f ∷ []) }

-- `setOnFlush(nullptr)` puts a callback that answers `true`.
unfoldable pub on_flushed : Socket → Socket
on_flushed s =
    let called = record s { flushes = suc s.flushes } in
    if s.on_flush s.flushes then called else record called { on_flush = λ k. true }

-- What the destructors of the packets report.
abbrev pub unsent : List SendMsg → List (ℕ × Bool)
unsent [] = []
unsent (p ∷ ps) = calls_for false (ids_of p.chunks) ++ unsent ps

pub data Verdict : Type 0 where
  complete : Verdict
  blocked : Verdict
  broken : ℕ → Verdict

-- What `flushData` makes of a `send` that left `after` of `before` bytes.
unfoldable pub judge : ℕ → ℕ → ℕ → Verdict
judge before after errno =
    if ltb after before
    then if after == 0 then complete else blocked
    else if errno == eagain
    then blocked
    else broken errno

-- A packet with the socket's descriptor and callback, and the socket after it.
abbrev pub lend : Socket → SendMsg → SendMsg
lend s p = record p { wire = s.wire; called = s.called }

abbrev pub errno_after : Option ℕ → ℕ → ℕ
errno_after none old = old
errno_after (some e) old = e

abbrev pub regain : Socket → SendMsg → Option ℕ → Socket
regain s p error = record s { wire = p.wire; called = p.called; errno = errno_after error s.errno }

-- How the loop over the second-level list ends.
pub data Round : Type 0 where
  all_out : Socket → Round
  some_left : Socket → List SendMsg → Round
  failed : Socket → Round

abbrev pub wait_writable : Bool → Socket → Socket
wait_writable true s = s
wait_writable false s = start_write_able s

unfoldable pub after_send :
    Bool
    → Verdict
    → SendMsg
    → List SendMsg
    → Socket
    → List Answer
    → Option (Round × List Answer)
    → Option (Round × List Answer)
unfolding start_write_able emit_err
after_send poller complete p ps s rest again = again
after_send poller blocked p ps s rest again =
    some (some_left (wait_writable poller s) (p ∷ ps), rest)
after_send poller (broken e) p ps s rest again =
    let t = emit_err (errno_fault e) s in
    some (failed (record t { called = t.called ++ unsent (p ∷ ps) }), rest)

unfoldable pub send_packets :
    Bool → List Answer → List SendMsg → Socket → Option (Round × List Answer)
unfolding judge after_send send_loop
send_packets poller answers [] s = some (all_out s, answers)
send_packets poller answers (p ∷ ps) s = elim (send_loop answers (lend s p)) [
  | none ↦ none
  | some (t, (error, rest)) ↦
      let u = regain s t error in
      after_send poller (judge p.remain_size t.remain_size u.errno) t ps u rest
        (send_packets poller rest ps u)
]

pub data Start : Type 0 where
  idle : Socket → Start
  busy : Socket → List SendMsg → Start

-- `flushData` up to the loop: the packets to send.
unfoldable pub begin_flush : Bool → ℕ → List SendMsg → List Chunk → Socket → Start
unfolding stop_write_able on_flushed new_send_msg
begin_flush poller now (p ∷ ps) waiting s = busy (record s { sending = [] }) (p ∷ ps)
begin_flush poller now [] (c ∷ cs) s =
    busy (record s { flushed_at = now; waiting = [] }) (new_send_msg (c ∷ cs) [] ∷ [])
begin_flush true now [] [] s = idle (on_flushed (stop_write_able (record s { flushed_at = now })))
begin_flush false now [] [] s = idle (record s { flushed_at = now })

abbrev pub Flushed : Type 0
Flushed = Option (Socket × (Bool × List Answer))

-- `flushData` after the loop.
abbrev pub finish_flush : Bool → Round → List Answer → Flushed → Flushed
finish_flush poller (failed s) rest again = some (s, (false, rest))
finish_flush poller (some_left s ps) rest again =
    some (record s { sending = ps ++ s.sending }, (true, rest))
finish_flush true (all_out s) rest again = again
finish_flush false (all_out s) rest again = some (s, (true, rest))

-- `flushData`, which calls itself on the poller's thread, on fuel.
unfoldable pub flush_data : ℕ → Bool → ℕ → List Answer → Socket → Flushed
unfolding begin_flush send_packets
flush_data zero poller now answers s = none
flush_data (suc k) poller now answers s = elim (begin_flush poller now s.sending s.waiting s) [
  | idle t ↦ some (t, (true, answers))
  | busy t ps ↦ elim (send_packets poller answers ps t) [
    | none ↦ none
    | some (round, rest) ↦
        let again : Socket → Flushed = flush_data k poller now rest in
        elim round [
          | all_out u ↦ finish_flush poller (all_out u) rest (again u)
          | some_left u left ↦ finish_flush poller (some_left u left) rest none
          | failed u ↦ finish_flush poller (failed u) rest none
        ]
  ]
]

-- The second-level list, then the first-level list, then nothing.
abbrev pub rounds : ℕ
rounds = 3

abbrev pub is_nil : {A : Type 0} → List A → Bool
is_nil [] = true
is_nil (x ∷ xs) = false

unfoldable pub on_write_able : ℕ → List Answer → Socket → Flushed
unfolding flush_data stop_write_able
on_write_able now answers s =
    let flushed = flush_data rounds true now answers s in
    if is_nil s.waiting && is_nil s.sending
    then some (stop_write_able s, (true, answers))
    else flushed

unfoldable pub flush_all : ℕ → List Answer → Socket → Flushed
unfolding flush_data emit_err
flush_all now answers s =
    let flushed = flush_data rounds false now answers s in
    if not s.has_fd
    then some (s, (false, answers))
    else if s.sendable
    then flushed
    else if ltb s.max_send_buffer_ms (sub64 now s.flushed_at)
    then some (emit_err send_timeout s, (false, answers))
    else some (s, (true, answers))

-- `send_l`; `none` is the result -1.
abbrev pub sent_or_error : ℕ → Flushed → Option (Socket × (Option ℕ × List Answer))
sent_or_error size none = none
sent_or_error size (some (s, (true, rest))) = some (s, (some size, rest))
sent_or_error size (some (s, (false, rest))) = some (s, (none, rest))

unfoldable pub send_l :
    Chunk → Bool → ℕ → List Answer → Socket → Option (Socket × (Option ℕ × List Answer))
unfolding flush_all
send_l buf try_flush now answers s =
    let t = record s { waiting = s.waiting ++ (buf ∷ []) } in
    let flushed = flush_all now answers t in
    if length buf.rest == 0
    then some (s, (some 0, answers))
    else if try_flush
    then sent_or_error (length buf.rest) flushed
    else some (t, (some (length buf.rest), answers))

unfoldable pub close_sock : Bool → ℕ → Socket → Socket
close_sock close_fd now s =
    let t = record s {
      sendable = true;
      enable_recv = true;
      flushed_at = now;
      waiting = [];
      sending = [];
      called = s.called ++ unsent s.sending;
      watch = none;
    } in
    if close_fd then record t { err_emit = false; has_fd = false } else t

-- The posted task of `emitErr`.
unfoldable pub run_error : ℕ → List Fault → Socket → Socket
unfolding close_sock
run_error now [] s = s
run_error now (f ∷ fs) s =
    close_sock false now (record s { errors = fs; reported = s.reported ++ (f ∷ []) })

unfoldable pub alive : Socket → Bool
alive s = s.has_fd && not s.err_emit

-- A socket that has just been connected and attached to its poller (`setSock`, `attachEvent`).
abbrev pub attached : Socket
attached = record {
  has_fd = true;
  watch = some (record { read = true; write = true });
  waiting = [];
  sending = [];
  sendable = true;
  enable_recv = true;
  err_emit = false;
  flushed_at = 0;
  max_send_buffer_ms = 10000;
  errno = 0;
  on_flush = λ k. true;
  flushes = 0;
  errors = [];
  reported = [];
  wire = [];
  called = [];
}
