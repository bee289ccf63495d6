-- ===== src/Network/Receive/Drain.antt =====
-- What `onRead` has read when it returns.
use zltool_kit.Kit.{
  pick_true, pick_false, ℕ, ◌≡◌, ◌≢◌, refl, sym, ap, ◌∙◌, Bool, true, false, not, List, [], ◌∷◌,
  ◌++◌, some, ◌==◌, if◌then◌else◌, inl, inr, Bool-cases, arith, append-nil, append_assoc,
}
use zltool_kit.Network.Socket.{Socket, errno_fault, end_of_file, emit_err, eagain}
use mathlib.Core.Path.{subst}
use zltool_kit.Network.Receive.{
  Arrival, got, interrupted_read, refused_read, Reader, total, deliver, at_eof, at_error, on_read,
}

-- What the calls have read.
abbrev pub batches : List Arrival → List (List (List ℕ))
batches [] = []
batches (got bs ∷ rest) = if total bs == 0 then batches rest else bs ∷ batches rest
batches (interrupted_read ∷ rest) = batches rest
batches (refused_read e ∷ rest) = batches rest

-- Whether the answers have one that ends the loop.
abbrev pub ends : List Arrival → Bool
ends [] = false
ends (got bs ∷ rest) = if total bs == 0 then true else ends rest
ends (interrupted_read ∷ rest) = ends rest
ends (refused_read e ∷ rest) = true

-- The socket after the callback has been called for what was read.
abbrev pub after : (List (List ℕ) → Socket → Socket) → List Arrival → Socket → Socket
after h [] s = s
after h (got bs ∷ rest) s = if total bs == 0 then after h rest s else after h rest (h bs s)
after h (interrupted_read ∷ rest) s = after h rest s
after h (refused_read e ∷ rest) s = after h rest s

-- Why `onRead` returns after the calls `used`, and the socket `t` that it leaves, where the callbacks left `s`.
pub data Final (udp : Bool) (s t : Socket) (used : List Arrival) : Type 0 where
  switched_off : t ≡ s → s.enable_recv ≡ false → Final udp s t used
  drained :
      (before : List Arrival)
      → t ≡ s
      → used ≡ before ++ (refused_read eagain ∷ [])
      → Final udp s t used
  ignored :
      (before : List Arrival) (e : ℕ)
      → udp ≡ true
      → t ≡ s
      → used ≡ before ++ (refused_read e ∷ [])
      → Final udp s t used
  failed_read :
      (before : List Arrival) (e : ℕ)
      → udp ≡ false
      → e ≢ eagain
      → t ≡ emit_err (errno_fault e) s
      → used ≡ before ++ (refused_read e ∷ [])
      → Final udp s t used
  empty_batch :
      (before : List Arrival) (bs : List (List ℕ))
      → t ≡ (if udp then s else emit_err end_of_file s)
      → used ≡ before ++ (got bs ∷ [])
      → total bs ≡ 0
      → Final udp s t used

at_error-delivered : (udp : Bool) (e : ℕ) (r : Reader) → (at_error udp e r).delivered ≡ r.delivered
unfolding at_error
at_error-delivered true e r = refl
at_error-delivered false e r = elim (Bool-cases (e == eagain)) [
  | inl nothing ↦ rw nothing refl
  | inr broken ↦ rw broken refl
]

at_eof-delivered : (udp : Bool) (r : Reader) → (at_eof udp r).delivered ≡ r.delivered
unfolding at_eof
at_eof-delivered true r = refl
at_eof-delivered false r = refl

-- One more call before the others.
further :
    (a : Arrival) (udp : Bool) (s t : Socket) (used : List Arrival)
    → Final udp s t used
    → Final udp s t (a ∷ used)
further a udp s t used (switched_off u h) = switched_off u h
further a udp s t used (drained b u h) = drained (a ∷ b) u (ap (◌∷◌ a) h)
further a udp s t used (failed_read b e o n u h) = failed_read (a ∷ b) e o n u (ap (◌∷◌ a) h)
further a udp s t used (ignored b e o u h) = ignored (a ∷ b) e o u (ap (◌∷◌ a) h)
further a udp s t used (empty_batch b bs u h z) = empty_batch (a ∷ b) bs u (ap (◌∷◌ a) h) z

refused-Final :
    (udp : Bool) (e : ℕ) (r : Reader)
    → Final udp r.sock (at_error udp e r).sock (refused_read e ∷ [])
unfolding at_error
refused-Final true e r = ignored [] e refl refl refl
refused-Final false e r = elim (Bool-cases (e == eagain)) [
  | inl nothing ↦
      let same : e ≡ eagain = ground arith in
      drained [] (ap (λ (x : Reader). x.sock) (pick_true _ _ nothing))
        (ap (λ x. refused_read x ∷ []) same)
  | inr broken ↦
      let other : e ≢ eagain = ground (arith, broken) in
      failed_read [] e refl other (ap (λ (x : Reader). x.sock) (pick_false _ _ broken)) refl
]

empty-Final :
    (udp : Bool) (bs : List (List ℕ)) (r : Reader)
    → total bs ≡ 0
    → Final udp r.sock (at_eof udp r).sock (got bs ∷ [])
unfolding at_eof
empty-Final true bs r z = empty_batch [] bs refl refl z
empty-Final false bs r z = empty_batch [] bs refl refl z

-- On whatever the kernel answers and whatever the callback does: if an answer ends the loop, `onRead` returns;
-- what was read by the calls it made, and only that, is given to the callback in order; and it returns only because
-- reception was switched off, because the kernel had nothing more (`EAGAIN`), because of another error, or because of a
-- call that read no byte. Behind the callbacks the socket is as they left it, but for `emitErr` with the error, or with
-- the end of the stream, on a TCP socket: on a UDP socket errors and calls that read no byte are ignored.
pub on_read_lem :
    (udp : Bool) (h : List (List ℕ) → Socket → Socket) (answers : List Arrival) (r : Reader)
    → ends answers ≡ true
    → (t : Reader) × (used : List Arrival) × (rest : List Arrival) × (on_read udp h answers r
        ≡ some (t, rest))
      × (answers ≡ used ++ rest)
      × (t.delivered ≡ r.delivered ++ batches used)
      × Final udp (after h used r.sock) t.sock used
unfolding on_read deliver
on_read_lem udp h [] r w = cc
on_read_lem udp h (interrupted_read ∷ rest) r w = elim (Bool-cases r.sock.enable_recv) [
  | inl on ↦
      let (t, used, left, e, split, f, x) = on_read_lem udp h rest r w in
      (
        t,
        interrupted_read ∷ used,
        left,
        pick_true _ _ on ∙ e,
        ap (◌∷◌ interrupted_read) split,
        f,
        further interrupted_read udp (after h used r.sock) t.sock used x,
      )
  | inr off ↦ (
    r,
    [],
    interrupted_read ∷ rest,
    pick_false _ _ off,
    refl,
    sym (append-nil r.delivered),
    switched_off refl off,
  )
]
on_read_lem udp h (refused_read e ∷ rest) r w = elim (Bool-cases r.sock.enable_recv) [
  | inl on ↦ (
    at_error udp e r,
    refused_read e ∷ [],
    rest,
    pick_true _ _ on,
    refl,
    at_error-delivered udp e r ∙ sym (append-nil r.delivered),
    refused-Final udp e r,
  )
  | inr off ↦ (
    r,
    [],
    refused_read e ∷ rest,
    pick_false _ _ off,
    refl,
    sym (append-nil r.delivered),
    switched_off refl off,
  )
]
on_read_lem udp h (got bs ∷ rest) r w = elim (Bool-cases r.sock.enable_recv) [
  | inl on ↦ elim (Bool-cases (total bs == 0)) [
    | inl empty ↦ (
      at_eof udp r,
      got bs ∷ [],
      rest,
      pick_false _ _ (ap not on) ∙ pick_true _ _ empty,
      refl,
      at_eof-delivered udp r ∙ rw empty (sym (append-nil r.delivered)),
      subst (λ z. Final udp z (at_eof udp r).sock (got bs ∷ [])) (sym (pick_true _ _ empty))
          (empty-Final udp bs r (ground arith)),
    )
    | inr more ↦
        let (t, used, left, e, split, f, x) =
          on_read_lem udp h rest (deliver h bs r) (sym (pick_false true (ends rest) more) ∙ w) in
        (
          t,
          got bs ∷ used,
          left,
          pick_false _ _ (ap not on) ∙ (pick_false _ _ more ∙ e),
          ap (◌∷◌ (got bs)) split,
          f ∙ rw more (append_assoc r.delivered (bs ∷ []) (batches used)),
          subst (λ z. Final udp z t.sock (got bs ∷ used)) (sym (pick_false _ _ more))
              (further (got bs) udp (after h used (h bs r.sock)) t.sock used x),
        )
  ]
  | inr off ↦ (
    r,
    [],
    got bs ∷ rest,
    pick_true _ _ (ap not off),
    refl,
    sym (append-nil r.delivered),
    switched_off refl off,
  )
]
