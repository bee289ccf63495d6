-- ===== src/Network/Socket/Tests.antt =====
-- A socket on concrete buffers and answers.
use zltool_kit.Kit.{ℕ, ◌≡◌, refl, inl, true, false, List, [], ◌∷◌, ◌++◌, Option, none, some, arith}
use zltool_kit.Network.Kernel.{Answer, room, interrupted, refused, Chunk}
use zltool_kit.Network.SendMsg.{
  new_send_msg, send_loop, skip_sent, re_offset, take_out, send_completed,
}
use zltool_kit.Network.Socket.{
  Socket, attached, eagain, rounds, send_l, on_write_able, flush_data, begin_flush, send_packets,
  judge, after_send, set_enable_recv, emit_err, run_error, errno_fault, Flushed,
}
use zltool_kit.Network.SendMsg.Conserve.{refusal}
use zltool_kit.Network.Socket.Sound.{IsSound, stream}
use zltool_kit.Network.Socket.Stream.{IsArmed, writes}
use zltool_kit.Network.Socket.Rounds.{IsTold}
use zltool_kit.Network.Socket.Ops.{SendEnds, send_l_lem}
use zltool_kit.Network.Socket.History.{
  Steps, start, then_step, sends, receives, steps_lem, IsClosed, fails_lem,
}
use zltool_kit.Network.Socket.Starve.{starves_lem}

abbrev hello : Chunk
hello = record { id = 1; rest = 10 ∷ 11 ∷ 12 ∷ [] }

abbrev world : Chunk
world = record { id = 2; rest = 20 ∷ 21 ∷ [] }

abbrev waiting_two : Socket
waiting_two = record attached { waiting = hello ∷ world ∷ [] }

-- The kernel takes four bytes, then has no room.
abbrev partly : List Answer
partly = room 4 ∷ interrupted ∷ refused eagain ∷ []

abbrev reset_by_peer : List Answer
reset_by_peer = interrupted ∷ refused 104 ∷ []

attached-IsSound : IsSound attached
attached-IsSound = record { ready = tt; filled = tt; small = omega arith }

attached-IsArmed : IsArmed attached
attached-IsArmed = record { known = refl; queued = inl refl; busy = λ (x : true ≡ false). cc }

waiting_two-IsSound : IsSound waiting_two
waiting_two-IsSound = record {
  ready = tt;
  filled = (omega arith, (omega arith, tt));
  small = omega arith;
}

waiting_two-IsTold : IsTold true waiting_two
waiting_two-IsTold = record {
  armed = record { known = refl; queued = inl refl; busy = λ (x : true ≡ false). cc };
  told = λ x. refl;
}

send_l_lem_example :
    (t : Socket) × (reply : Option ℕ) × (rest : List Answer) × (send_l hello true 5 partly attached
      ≡ some (t, (reply, rest)))
    × SendEnds partly hello attached t reply
send_l_lem_example =
    send_l_lem hello true 5 partly attached attached-IsSound attached-IsArmed (omega arith)
      (omega arith) refl

abbrev what_is_left : Flushed → List ℕ
what_is_left none = []
what_is_left (some (t, x)) = stream t

-- Nothing of the two buffers is lost.
left_partly :
    what_is_left (flush_data rounds true 5 partly waiting_two) ≡ 10 ∷ 11 ∷ 12 ∷ 20 ∷ 21 ∷ []
unfolding flush_data begin_flush send_packets send_loop take_out re_offset skip_sent send_completed
    new_send_msg judge after_send
left_partly = refl

abbrev after_hello : Socket
after_hello = record attached { waiting = hello ∷ [] }

queued_hello : send_l hello false 5 partly attached ≡ some (after_hello, (some 3, partly))
unfolding send_l
queued_hello = refl

abbrev history :
    Steps attached (([] ++ (10 ∷ 11 ∷ 12 ∷ [])) ++ []) (set_enable_recv false after_hello)
history =
    then_step after_hello (set_enable_recv false after_hello) (10 ∷ 11 ∷ 12 ∷ []) []
      (then_step attached after_hello [] (10 ∷ 11 ∷ 12 ∷ []) start (
        sends hello false 5 3 partly partly after_hello (omega arith) (omega arith) refl
          queued_hello))
      (receives false (inl refl))

steps_lem_example :
    (stream (set_enable_recv false after_hello)
      ≡ stream attached ++ (([] ++ (10 ∷ 11 ∷ 12 ∷ [])) ++ []))
    × IsSound (set_enable_recv false after_hello)
    × IsArmed (set_enable_recv false after_hello)
steps_lem_example = steps_lem attached attached-IsSound attached-IsArmed history

abbrev broken_socket : Socket
broken_socket = record waiting_two {
  waiting = [];
  flushed_at = 5;
  errno = 104;
  err_emit = true;
  errors = errno_fault 104 ∷ [];
  called = (1, false) ∷ (2, false) ∷ [];
}

broken_run : flush_data rounds true 5 reset_by_peer waiting_two ≡ some (broken_socket, (false, []))
unfolding flush_data begin_flush send_packets send_loop take_out re_offset skip_sent send_completed
    new_send_msg judge after_send emit_err
broken_run = refl

fails_lem_example :
    (e : ℕ) × (refusal reset_by_peer ≡ some e)
    × IsClosed broken_socket (run_error 9 broken_socket.errors broken_socket) (errno_fault e)
fails_lem_example =
    fails_lem true 5 9 reset_by_peer [] waiting_two broken_socket waiting_two-IsSound
      waiting_two-IsTold refl refl refl broken_run

starves_lem_example :
    (t u : Socket) × (send_l hello false 5 [] attached ≡ some (t, (some 3, [])))
    × (on_write_able 5 (refused eagain ∷ []) t ≡ some (u, (true, [])))
    × (stream (set_enable_recv false u) ≡ 10 ∷ 11 ∷ 12 ∷ [])
    × ((set_enable_recv false u).wire ≡ [])
    × (writes (set_enable_recv false u).watch ≡ false)
    × ((set_enable_recv false u).sendable ≡ true)
starves_lem_example = starves_lem hello 5 (omega arith) (omega arith)
