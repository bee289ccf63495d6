-- ===== src/Network/Socket/Starve.antt =====
-- What switching the reception off does to bytes that wait for the socket to be writable.
use zltool_kit.Kit.{
  ℕ, ◌<◌, ◌^◌, ◌≡◌, refl, ap, ◌∙◌, true, false, [], ◌∷◌, ◌++◌, some, ◌==◌, ltb, length, arith,
  append-nil,
}
use zltool_kit.Kit.Words.{u64}
use zltool_kit.Network.Kernel.{refused, Chunk}
use zltool_kit.Network.SendMsg.{SendMsg, bytes_of, new_send_msg, send_loop}
use zltool_kit.Network.Socket.{
  Socket, attached, eagain, send_l, on_write_able, begin_flush, judge, blocked, after_send,
  set_enable_recv,
}
use zltool_kit.Network.SendMsg.Cut.{HasBytes}
use zltool_kit.Network.Socket.Sound.{stream}
use zltool_kit.Network.Socket.Stream.{writes}
use zltool_kit.Network.Socket.Flush.{send_packets-cons}
use zltool_kit.Network.Socket.Rounds.{flush-some_left}

-- The socket with a packet of one buffer in its second-level list, for which the kernel had no room.
abbrev held : Chunk → ℕ → Socket
held buf now = record attached {
  flushed_at = now;
  errno = eagain;
  sending =
      record {
        chunks = buf ∷ [];
        remain_size = u64 (length (bytes_of (buf ∷ [])));
        called = [];
        wire = [];
      }
      ∷ [];
}

refused_lem :
    (e : ℕ) (p : SendMsg)
    → 0 < p.remain_size
    → send_loop (refused e ∷ []) p ≡ some (p, (some e, []))
unfolding send_loop
refused_lem e p h = let more : (p.remain_size == 0) ≡ false = ground (arith, h) in rw more refl

judge-refused : (n : ℕ) → judge n n eagain ≡ blocked
unfolding judge
judge-refused n = let nothing : ltb n n ≡ false = ground arith in rw nothing refl

held_lem :
    (buf : Chunk) (now : ℕ)
    → HasBytes buf
    → length buf.rest < 2 ^ 63
    → on_write_able now (refused eagain ∷ []) (record attached { waiting = buf ∷ [] })
      ≡ some (held buf now, (true, []))
unfolding on_write_able begin_flush after_send new_send_msg
held_lem buf now h w =
    let p : SendMsg = record {
      chunks = buf ∷ [];
      remain_size = u64 (length (bytes_of (buf ∷ [])));
      called = [];
      wire = [];
    } in
    let s : Socket = record attached { waiting = buf ∷ [] } in
    let t : Socket = record attached { flushed_at = now } in
    let more : 0 < p.remain_size = omega (arith, h, w, ap length (append-nil buf.rest)) in
    let sent =
      send_packets-cons true (refused eagain ∷ []) p [] t p (some eagain) []
        (refused_lem eagain p more) in
    flush-some_left 2 true now (refused eagain ∷ []) s t (p ∷ []) [] refl
      (record t { errno = eagain }) (p ∷ []) (sent ∙ rw (judge-refused p.remain_size) refl)

-- The bytes of a buffer that was queued without a flush, and for which the kernel had no room when the socket
-- was first reported writable, are kept; but once reception is switched off the poller no longer watches
-- for the socket being writable, though it counts as writable.
pub starves_lem :
    (buf : Chunk) (now : ℕ)
    → HasBytes buf
    → length buf.rest < 2 ^ 63
    → (t u : Socket) × (send_l buf false now [] attached ≡ some (t, (some (length buf.rest), [])))
      × (on_write_able now (refused eagain ∷ []) t ≡ some (u, (true, [])))
      × (stream (set_enable_recv false u) ≡ buf.rest)
      × ((set_enable_recv false u).wire ≡ [])
      × (writes (set_enable_recv false u).watch ≡ false)
      × ((set_enable_recv false u).sendable ≡ true)
unfolding send_l set_enable_recv
starves_lem buf now h w =
    let more : (length buf.rest == 0) ≡ false = ground (arith, h) in
    (
      record attached { waiting = buf ∷ [] },
      held buf now,
      rw more refl,
      held_lem buf now h w,
      append-nil ((buf.rest ++ []) ++ []) ∙ (append-nil (buf.rest ++ []) ∙ append-nil buf.rest),
      refl,
      refl,
      refl,
    )
