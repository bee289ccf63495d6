-- ===== src/Network/Receive/Tests.antt =====
-- `onRead` on concrete answers.
use zltool_kit.Kit.{ℕ, ◌≡◌, refl, true, false, List, [], ◌∷◌, ◌++◌, some, ◌==◌, if◌then◌else◌}
use zltool_kit.Network.Socket.{Socket, attached, eagain, emit_err, end_of_file}
use zltool_kit.Network.Receive.{
  Arrival, got, interrupted_read, refused_read, Reader, at_eof, on_read,
}
use zltool_kit.Network.Receive.Drain.{batches, after, Final, on_read_lem}

abbrev opened : Reader
opened = record { sock = attached; delivered = []; enable_speed = true; recv_speed = 0 }

-- A callback that switches reception off at a buffer with the byte 99.
abbrev switches : List (List ℕ) → Socket → Socket
switches ((c ∷ cs) ∷ bs) s = if c == 99 then record s { enable_recv = false } else s
switches bs s = s

abbrev read_all : List Arrival
read_all =
    got ((1 ∷ 2 ∷ []) ∷ []) ∷ interrupted_read ∷ got ((3 ∷ []) ∷ []) ∷ refused_read eagain ∷ []

on_read_lem_example :
    (t : Reader) × (used : List Arrival) × (rest : List Arrival) × (on_read false switches read_all
        opened
      ≡ some (t, rest))
    × (read_all ≡ used ++ rest)
    × (t.delivered ≡ [] ++ batches used)
    × Final false (after switches used attached) t.sock used
on_read_lem_example = on_read_lem false switches read_all opened refl

-- Two datagrams wait behind an empty one, and are not read.
empty_datagram :
    on_read true switches
      (got ([] ∷ []) ∷ got ((7 ∷ []) ∷ (8 ∷ []) ∷ []) ∷ refused_read eagain ∷ [])
      opened
    ≡ some (opened, got ((7 ∷ []) ∷ (8 ∷ []) ∷ []) ∷ refused_read eagain ∷ [])
unfolding on_read at_eof
empty_datagram = refl

-- The end of the stream is an error of a TCP socket.
end_of_stream :
    on_read false switches (got ([] ∷ []) ∷ []) opened
    ≡ some (record opened { sock = emit_err end_of_file attached }, [])
unfolding on_read at_eof emit_err
end_of_stream = refl
