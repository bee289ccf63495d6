-- ===== src/Network/Socket/Total.antt =====
-- `flushData` returns, and what it then has done.
use zltool_kit.Kit.{
  ℕ, zero, suc, ◌≤◌, ◌<◌, ◌≡◌, refl, sym, ap, ◌∙◌, Bool, true, false, List, [], ◌∷◌, ◌++◌, some,
  arith,
}
use mathlib.Core.Path.{subst}
use zltool_kit.Network.Kernel.{Answer, Chunk}
use zltool_kit.Network.SendMsg.{SendMsg}
use zltool_kit.Network.SendMsg.Conserve.{stops, refusal}
use zltool_kit.Network.Socket.{
  Socket, Start, busy, Round, all_out, begin_flush, flush_data, send_packets, rounds,
}
use zltool_kit.Network.Socket.Sound.{IsSound, packet_bytes, packet_calls}
use zltool_kit.Network.Socket.Flush.{
  IsSame, Ends, ends_out, ends_left, ends_failed, send_packets-Ends,
}
use zltool_kit.Network.Socket.Stream.{
  writes, IsBroken, FlushEnds, flushed, broke, need, IsBegun, Begins, begins_idle, begins_busy,
  begin_flush-Begins,
}
use zltool_kit.Network.Socket.Rounds.{
  IsTold, flush-idle, flush-all_out, flush-some_left, flush-failed, FlushEnds-trans, Keeps-trans,
  out-IsSound, out-IsLeft, out-stream, out-outcome, out-IsArmed, left-IsFlushed, failed-IsBroken,
}

need_pos : (sending : List SendMsg) (waiting : List Chunk) → 0 < need sending waiting
need_pos [] [] = omega arith
need_pos [] (c ∷ cs) = omega arith
need_pos (p ∷ ps) [] = omega arith
need_pos (p ∷ ps) (c ∷ cs) = omega arith

need_le : (sending : List SendMsg) (waiting : List Chunk) → need sending waiting ≤ rounds
need_le [] [] = omega arith
need_le [] (c ∷ cs) = omega arith
need_le (p ∷ ps) [] = omega arith
need_le (p ∷ ps) (c ∷ cs) = omega arith

-- The result of `flushData` on `k` rounds.
abbrev pub Returns : ℕ → Bool → ℕ → List Answer → Socket → Type 0
Returns k poller now answers s =
    (t : Socket) × (ok : Bool) × (rest : List Answer) × (flush_data k poller now answers s
      ≡ some (t, (ok, rest)))
    × FlushEnds answers s t ok

out-Returns :
    (k : ℕ) (poller : Bool) (now : ℕ) (answers : List Answer) (s t : Socket) (ps : List SendMsg)
    → IsBegun s t ps
    → begin_flush poller now s.sending s.waiting s ≡ busy t ps
    → (u : Socket) (rest : List Answer) → IsSame t u
    → u.sendable ≡ t.sendable
    → u.watch ≡ t.watch
    → u.wire ≡ t.wire ++ packet_bytes ps
    → u.called ≡ t.called ++ packet_calls ps
    → IsTold poller s
    → refusal rest ≡ refusal answers
    → send_packets poller answers ps t ≡ some (all_out u, rest)
    → (IsTold poller u → poller ≡ true → Returns k poller now rest u)
    → Returns (suc k) poller now answers s
out-Returns k true now answers s t ps g e u rest i a c wire calls told same f again =
    let armed = out-IsArmed s t ps g u i a c told.armed in
    let asked : IsTold true u = record {
      armed = armed;
      told = λ x. ap writes (c ∙ g.watch) ∙ told.told x;
    } in
    let (t1, ok, rest1, e1, x1) = again asked refl in
    (
      t1,
      ok,
      rest1,
      flush-all_out k true now answers s t ps rest e u f ∙ e1,
      FlushEnds-trans answers rest s u t1 ok same (out-IsLeft s t ps g u i)
          (out-stream s t ps g u i wire) (out-outcome s t ps g u i calls) (Keeps-trans g.keeps i)
          x1,
    )
out-Returns k false now answers s t ps g e u rest i a c wire calls told same f again = (
  u,
  true,
  rest,
  flush-all_out k false now answers s t ps rest e u f,
  flushed (record {
    sound = out-IsSound s t ps g u i;
    armed = out-IsArmed s t ps g u i a c told.armed;
    bytes = out-stream s t ps g u i wire;
    calls = out-outcome s t ps g u i calls;
    left = out-IsLeft s t ps g u i;
    keeps = Keeps-trans g.keeps i;
  }),
)

module _ (k : ℕ) (poller : Bool) (now : ℕ)
    (again : (answers : List Answer) (u : Socket)
      → IsSound u
      → IsTold poller u
      → stops answers ≡ true
      → need u.sending u.waiting ≤ k
      → Returns k poller now answers u) where
  ended :
      (answers : List Answer) (s t : Socket) (ps : List SendMsg)
      → IsTold poller s
      → need s.sending s.waiting ≤ suc k
      → IsBegun s t ps
      → begin_flush poller now s.sending s.waiting s ≡ busy t ps
      → {round : Round} {rest : List Answer} → send_packets poller answers ps t ≡ some (round, rest)
      → Ends poller answers ps t round rest
      → Returns (suc k) poller now answers s
  ended answers s t ps told h g e f (ends_out u rest i a c wire calls w same) =
      let fewer : need u.sending u.waiting ≤ k =
        rw (i.sending, g.sending, i.waiting) (omega (arith, g.fewer, h)) in
      out-Returns k poller now answers s t ps g e u rest i a c wire calls told same f
        (λ asked x. again rest u (out-IsSound s t ps g u i) asked w fewer)
  ended answers s t ps told h g e f (ends_left u p left rest i a v wire calls l) = (
    record u { sending = (p ∷ left) ++ u.sending },
    true,
    rest,
    flush-some_left k poller now answers s t ps rest e u (p ∷ left) f,
    flushed (left-IsFlushed s t ps g poller u (p ∷ left) i a told v wire calls l),
  )
  ended answers s t ps told h g e f (ends_failed v u left d rest i wire calls same l refusing) = (
    u,
    false,
    rest,
    flush-failed k poller now answers s t ps rest e u f,
    broke (
        subst (IsBroken answers s) (sym same)
          (failed-IsBroken s t ps g answers v left d i wire calls l refusing)),
  )

  begun :
      (answers : List Answer) (s : Socket)
      → IsTold poller s
      → stops answers ≡ true
      → need s.sending s.waiting ≤ suc k
      → {start : Start} → begin_flush poller now s.sending s.waiting s ≡ start
      → Begins s start
      → Returns (suc k) poller now answers s
  begun answers s told w h e (begins_idle t f) =
      (t, true, answers, flush-idle k poller now answers s t e, flushed (f told.armed))
  begun answers s told w h e (begins_busy t p ps g) =
      let (round, rest, f, x) = send_packets-Ends poller answers (p ∷ ps) t g.ready w in
      ended answers s t (p ∷ ps) told h g e f x

returns :
    (k : ℕ) (poller : Bool) (now : ℕ) (answers : List Answer) (s : Socket)
    → IsSound s
    → IsTold poller s
    → stops answers ≡ true
    → need s.sending s.waiting ≤ k
    → Returns k poller now answers s
returns zero poller now answers s v told w h =
    absurd (omega (arith, h, need_pos s.sending s.waiting))
returns (suc k) poller now answers s v told w h =
    begun k poller now (returns k poller now) answers s told w h refl
      (begin_flush-Begins poller now s.sending s.waiting s refl refl v)

pub flush_data_lem :
    (poller : Bool) (now : ℕ) (answers : List Answer) (s : Socket)
    → IsSound s
    → IsTold poller s
    → stops answers ≡ true
    → (t : Socket) × (ok : Bool) × (rest : List Answer) × (flush_data rounds poller now answers s
        ≡ some (t, (ok, rest)))
      × FlushEnds answers s t ok
flush_data_lem poller now answers s v told w =
    returns rounds poller now answers s v told w (need_le s.sending s.waiting)
