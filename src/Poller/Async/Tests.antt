-- ===== src/Poller/Async/Tests.antt =====
-- Two threads give a task each.
use zltool_kit.Kit.{◌<◌, ◌≡◌, refl, true, false, [], ◌∷◌, arith}
use zltool_kit.Poller.Async.{push, write_pipe, read_pipe}
use zltool_kit.Poller.Async.Wakeup.{Around, Steps, idle, pushes, writes, reads, start, then_step}

-- The second task is put into the list after the pipe was read and before the list is taken.
abbrev s1 : Around
s1 = record idle { poller = push false 7 idle.poller; writers = 1; pushed = 7 ∷ [] }

abbrev s2 : Around
s2 = record s1 { poller = write_pipe false s1.poller; writers = 0 }

abbrev s3 : Around
s3 = record s2 { poller = read_pipe s2.poller; has_read = true }

abbrev s4 : Around
s4 = record s3 { poller = push false 8 s3.poller; writers = 1; pushed = 7 ∷ 8 ∷ [] }

one_byte : 0 < s2.poller.pipe
unfolding push write_pipe
one_byte = omega arith

never_full : false ≡ true → 0 < s1.poller.pipe
never_full x = cc

abbrev steps : Steps idle s4
steps =
    then_step s3 s4
      (then_step s2 s3
        (then_step s1 s2 (then_step idle s1 start (pushes 7)) (writes false 0 refl never_full))
        (reads one_byte refl))
      (pushes 8)
