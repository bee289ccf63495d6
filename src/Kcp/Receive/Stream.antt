-- ===== src/Kcp/Receive/Stream.antt =====
-- `handleCmdPush` for any packets in any order, then `sortRecvBuf`.
use zltool_kit.Kit.{
  ℕ, suc, ◌+◌, ◌≤◌, ◌<◌, ◌^◌, ◌≡◌, refl, ◌≢◌, ◌⊎◌, inl, inr, List, [], ◌∷◌, ◌++◌, none, arith, ◌==◌,
  length, Bool-cases, All, append_assoc, append-nil,
}
use native.Mathlib.Decide.{dec_le}
use zltool_kit.Kit.{ap, ◌∙◌, ◌-◌}
use zltool_kit.Kit.Words.{add32}
use zltool_kit.Kcp.Packet.{Packet}
use zltool_kit.Kcp.State.{Kcp}
use zltool_kit.Kcp.Receive.{insert_packet, handle_cmd_push, move_ready, sort_recv_buf, Moved}
use zltool_kit.Kcp.Receive.Order.{
  Ascending, Ascending-mono, find_sn, insert_packet-Ascending, find_sn-insert_packet, find_sn_below,
}

abbrev pub IsBelow : ℕ → Packet → Type 0
IsBelow top p = p.header.sn < top

-- The buffer is ordered and lies between the next number and `top`, and no sum wraps.
pub record IsReceiver (top : ℕ) (k : Kcp) : Type 0 where
  pub ordered : Ascending k.rcv_nxt k.rcv_buf
  pub bounded : All (IsBelow top) k.rcv_buf
  pub below : k.rcv_nxt ≤ top
  pub room : top + k.settings.rcv_wnd < 2 ^ 32

insert_packet-All :
    (top : ℕ) (p : Packet) (ps : List Packet)
    → IsBelow top p
    → All (IsBelow top) ps
    → All (IsBelow top) (insert_packet p ps)
unfolding insert_packet
insert_packet-All top p [] h a = (h, tt)
insert_packet-All top p (q ∷ ps) h a = ground (arith, insert_packet-All top p ps h a.1)

pub handle_cmd_push-IsReceiver :
    (top : ℕ) (p : Packet) (k : Kcp)
    → IsBelow top p
    → IsReceiver top k
    → IsReceiver top (handle_cmd_push p k)
unfolding handle_cmd_push
handle_cmd_push-IsReceiver top p k h v = ground (
  arith,
  insert_packet-All top p k.rcv_buf h v.bounded,
  insert_packet-Ascending p k.rcv_nxt k.rcv_buf,
)

-- The numbers are `n`, `n + 1` and so on.
abbrev pub Consecutive : ℕ → List Packet → Type 0
Consecutive n [] = Unit
Consecutive n (p ∷ ps) = (p.header.sn ≡ n) × Consecutive (suc n) ps

-- What `sortRecvBuf` did: it moved the longest consecutive run from the front of the buffer.
pub record Moves (top next : ℕ) (ps queue : List Packet) (m : Moved) : Type 0 where
  pub run : List Packet
  pub consecutive : Consecutive next run
  pub queued : m.queue ≡ queue ++ run
  pub split : ps ≡ run ++ m.buf
  pub counted : m.next ≡ next + length run
  pub gap : Ascending (suc m.next) m.buf
  pub capped : next ≤ top → m.next ≤ top
  pub rest_bounded : All (IsBelow top) m.buf

extend :
    {top next : ℕ} {p : Packet} {ps queue : List Packet} {m : Moved}
    → Moves top (suc next) ps (queue ++ p ∷ []) m
    → p.header.sn ≡ next
    → p.header.sn < top
    → Moves top next (p ∷ ps) queue m
extend {top} {next} {p} {ps} {queue} v here low = record {
  run = p ∷ v.run;
  consecutive = (here, v.consecutive);
  queued = v.queued ∙ append_assoc queue (p ∷ []) v.run;
  split = ap (◌∷◌ p) v.split;
  counted = omega (arith, v.counted);
  gap = v.gap;
  capped = λ _. v.capped (omega arith);
  rest_bounded = v.rest_bounded;
}

pub move_ready-Moves :
    (top : ℕ) (ps : List Packet) (next : ℕ) (queue : List Packet)
    → Ascending next ps
    → All (IsBelow top) ps
    → top < 2 ^ 32
    → Moves top next ps queue (move_ready ps next queue)
unfolding move_ready
move_ready-Moves top [] next queue a b h = record {
  run = [];
  consecutive = tt;
  queued = rw append-nil;
  split = refl;
  counted = omega arith;
  gap = tt;
  capped = λ h. h;
  rest_bounded = tt;
}
move_ready-Moves top (p ∷ ps) next queue a b h = elim (Bool-cases (p.header.sn == next)) [
  | inl e ↦
      let here : p.header.sn ≡ next = ground arith in
      let step : add32 next 1 ≡ suc next = omega arith in
      rw (e, step)
        (extend
          (move_ready-Moves top ps (suc next) (queue ++ p ∷ [])
            (Ascending-mono (suc next) (suc p.header.sn) ps (omega arith) a.1) b.1 h)
          here b.0)
  | inr e ↦ rw e (record {
    run = [];
    consecutive = tt;
    queued = rw append-nil;
    split = refl;
    counted = omega arith;
    gap = ground arith;
    capped = λ h. h;
    rest_bounded = b;
  })
]

-- A packet with number `sn` was taken in: it is in the buffer, or it has left it for the queue.
abbrev pub IsSeen : ℕ → Kcp → Type 0
IsSeen sn k = (sn < k.rcv_nxt) ⊎ (find_sn sn k.rcv_buf ≢ none)

-- The packets of a datagram, one after the other.
unfoldable pub arrive : List Packet → Kcp → Kcp
arrive [] k = k
arrive (p ∷ ps) k = arrive ps (handle_cmd_push p k)

pub rcv_nxt-handle_cmd_push : (p : Packet) (k : Kcp) → (handle_cmd_push p k).rcv_nxt ≡ k.rcv_nxt
unfolding handle_cmd_push
rcv_nxt-handle_cmd_push p k = ground arith

rcv_wnd-handle_cmd_push :
    (p : Packet) (k : Kcp) → (handle_cmd_push p k).settings.rcv_wnd ≡ k.settings.rcv_wnd
unfolding handle_cmd_push
rcv_wnd-handle_cmd_push p k = ground arith

rcv_queue-handle_cmd_push : (p : Packet) (k : Kcp) → (handle_cmd_push p k).rcv_queue ≡ k.rcv_queue
unfolding handle_cmd_push
rcv_queue-handle_cmd_push p k = ground arith

pub handle_cmd_push-IsSeen :
    (top sn : ℕ) (p : Packet) (k : Kcp)
    → IsReceiver top k
    → IsSeen sn k
    → IsSeen sn (handle_cmd_push p k)
unfolding handle_cmd_push
handle_cmd_push-IsSeen top sn p k v (inl h) = ground arith
handle_cmd_push-IsSeen top sn p k v (inr h) =
    ground (arith, find_sn-insert_packet p sn k.rcv_nxt k.rcv_buf v.ordered, find_sn sn k.rcv_buf)

-- A packet within the window is seen once it has been handled.
pub handle_cmd_push-IsSeen_self :
    (top sn : ℕ) (p : Packet) (k : Kcp)
    → IsReceiver top k
    → p.header.sn ≡ sn
    → sn < k.rcv_nxt + k.settings.rcv_wnd
    → IsSeen sn (handle_cmd_push p k)
unfolding handle_cmd_push
handle_cmd_push-IsSeen_self top sn p k v same h =
    ground (arith, find_sn-insert_packet p sn k.rcv_nxt k.rcv_buf v.ordered, find_sn sn k.rcv_buf)

pub arrive-IsReceiver :
    (top : ℕ) (ps : List Packet) (k : Kcp)
    → All (IsBelow top) ps
    → IsReceiver top k
    → IsReceiver top (arrive ps k)
unfolding arrive
arrive-IsReceiver top [] k b v = v
arrive-IsReceiver top (p ∷ ps) k b v =
    arrive-IsReceiver top ps (handle_cmd_push p k) b.1 (handle_cmd_push-IsReceiver top p k b.0 v)

-- What a datagram of data packets leaves alone.
record Keeps (k l : Kcp) : Type 0 where
  next : l.rcv_nxt ≡ k.rcv_nxt
  wnd : l.settings.rcv_wnd ≡ k.settings.rcv_wnd
  queue : l.rcv_queue ≡ k.rcv_queue

arrive-Keeps : (ps : List Packet) (k : Kcp) → Keeps k (arrive ps k)
unfolding arrive
arrive-Keeps [] k = record { next = refl; wnd = refl; queue = refl }
arrive-Keeps (p ∷ ps) k =
    let later = arrive-Keeps ps (handle_cmd_push p k) in
    record {
      next = later.next ∙ rcv_nxt-handle_cmd_push p k;
      wnd = later.wnd ∙ rcv_wnd-handle_cmd_push p k;
      queue = later.queue ∙ rcv_queue-handle_cmd_push p k;
    }

arrive-IsSeen_old :
    (top sn : ℕ) (ps : List Packet) (k : Kcp)
    → All (IsBelow top) ps
    → IsReceiver top k
    → IsSeen sn k
    → IsSeen sn (arrive ps k)
unfolding arrive
arrive-IsSeen_old top sn [] k b v h = h
arrive-IsSeen_old top sn (p ∷ ps) k b v h =
    arrive-IsSeen_old top sn ps (handle_cmd_push p k) b.1 (handle_cmd_push-IsReceiver top p k b.0 v)
      (handle_cmd_push-IsSeen top sn p k v h)

-- Every number that arrives within the window is seen, in whatever order it comes.
pub arrive-IsSeen :
    (top sn : ℕ) (ps : List Packet) (k : Kcp)
    → All (IsBelow top) ps
    → IsReceiver top k
    → sn < k.rcv_nxt + k.settings.rcv_wnd
    → find_sn sn ps ≢ none
    → IsSeen sn (arrive ps k)
unfolding arrive
arrive-IsSeen top sn [] k b v h f = absurd (f refl)
arrive-IsSeen top sn (p ∷ ps) k b v h f = elim (Bool-cases (p.header.sn == sn)) [
  | inl e ↦
      arrive-IsSeen_old top sn ps (handle_cmd_push p k) b.1
        (handle_cmd_push-IsReceiver top p k b.0 v)
        (handle_cmd_push-IsSeen_self top sn p k v (ground arith) h)
  | inr e ↦
      arrive-IsSeen top sn ps (handle_cmd_push p k) b.1 (handle_cmd_push-IsReceiver top p k b.0 v)
        (omega (arith, rcv_nxt-handle_cmd_push p k, rcv_wnd-handle_cmd_push p k)) (rw e at f)
]

sort_recv_buf-Moves :
    (top : ℕ) (k : Kcp)
    → IsReceiver top k
    → Moves top k.rcv_nxt k.rcv_buf k.rcv_queue (move_ready k.rcv_buf k.rcv_nxt k.rcv_queue)
sort_recv_buf-Moves top k v =
    move_ready-Moves top k.rcv_buf k.rcv_nxt k.rcv_queue v.ordered v.bounded (omega (arith, v.room))

find_sn-append_ne :
    (sn lo : ℕ) (run rest : List Packet)
    → Consecutive lo run
    → lo + length run ≤ sn
    → find_sn sn (run ++ rest) ≡ find_sn sn rest
find_sn-append_ne sn lo [] rest c h = refl
find_sn-append_ne sn lo (p ∷ run) rest c h =
    ground (arith, find_sn-append_ne sn (suc lo) run rest c.1)

-- The number that a receiver waits for, once it is sorted, was not seen.
next-not-IsSeen :
    (top : ℕ) (k : Kcp) {m : Moved}
    → Moves top k.rcv_nxt k.rcv_buf k.rcv_queue m
    → ¬ IsSeen m.next k
next-not-IsSeen top k {m} v (inl h) = absurd (omega (arith, v.counted))
next-not-IsSeen top k {m} v (inr h) = h (
    ap (find_sn m.next) v.split
    ∙ find_sn-append_ne m.next k.rcv_nxt v.run m.buf v.consecutive (omega (arith, v.counted))
    ∙ find_sn_below m.next (suc m.next) m.buf (omega arith) v.gap)

-- What `sortRecvBuf` adds to the queue.
pub record Streams (k l : Kcp) : Type 0 where
  pub run : List Packet
  pub queued : l.rcv_queue ≡ k.rcv_queue ++ run
  pub consecutive : Consecutive k.rcv_nxt run
  pub counted : l.rcv_nxt ≡ k.rcv_nxt + length run

-- Safety: data packets that arrive in any order, with gaps and repetitions, extend the receive queue
-- by packets numbered without a gap from `_rcv_nxt` on, which moves just behind them; the receiver is
-- well formed, and no number reaches `top`, which leaves room for a window before 2 ^ 32.
pub arrive-Streams :
    (top : ℕ) (ps : List Packet) (k : Kcp)
    → All (IsBelow top) ps
    → IsReceiver top k
    → Streams k (sort_recv_buf (arrive ps k))
unfolding sort_recv_buf
arrive-Streams top ps k b v =
    let a = arrive ps k in
    let kept = arrive-Keeps ps k in
    let moved = sort_recv_buf-Moves top a (arrive-IsReceiver top ps k b v) in
    record {
      run = moved.run;
      queued = moved.queued ∙ ap (λ q. q ++ moved.run) kept.queue;
      consecutive = rw kept.next at moved.consecutive;
      counted = moved.counted ∙ ap (λ n. n + length moved.run) kept.next;
    }

reaches :
    (top n : ℕ) (ps : List Packet) (k : Kcp)
    → All (IsBelow top) ps
    → IsReceiver top k
    → n ≤ k.settings.rcv_wnd
    → ((i : ℕ) → i < n → find_sn (k.rcv_nxt + i) ps ≢ none)
    → k.rcv_nxt + n ≤ (sort_recv_buf (arrive ps k)).rcv_nxt
unfolding sort_recv_buf
reaches top n ps k b v fits all = elim (dec_le (k.rcv_nxt + n) next) [
  | yes h ↦ h
  | no h ↦ absurd (
      next-not-IsSeen top (arrive ps k) moved (
        arrive-IsSeen top next ps k b v (omega arith) (
          let i : ℕ = next - k.rcv_nxt in
          let e : k.rcv_nxt + i ≡ next = omega (arith, s.counted) in
          rw e at (all i (omega (arith, s.counted))))))
]
  where
    next : ℕ
    next = (sort_recv_buf (arrive ps k)).rcv_nxt

    s : Streams k (sort_recv_buf (arrive ps k))
    s = arrive-Streams top ps k b v

    moved :
        Moves top
          (arrive ps k).rcv_nxt
          (arrive ps k).rcv_buf
          (arrive ps k).rcv_queue
          (move_ready (arrive ps k).rcv_buf (arrive ps k).rcv_nxt (arrive ps k).rcv_queue)
    moved = sort_recv_buf-Moves top (arrive ps k) (arrive-IsReceiver top ps k b v)

-- Liveness: if every number of the next `n`, no more than the window holds, is among the packets that
-- arrive, then at least `n` packets, numbered without a gap from `_rcv_nxt` on, are added to the receive queue, and
-- `_rcv_nxt` moves just behind them; under the same conditions.
pub arrive_complete :
    (top n : ℕ) (ps : List Packet) (k : Kcp)
    → All (IsBelow top) ps
    → IsReceiver top k
    → n ≤ k.settings.rcv_wnd
    → ((i : ℕ) → i < n → find_sn (k.rcv_nxt + i) ps ≢ none)
    → (run : List Packet) × ((sort_recv_buf (arrive ps k)).rcv_queue ≡ k.rcv_queue ++ run)
      × Consecutive k.rcv_nxt run
      × (n ≤ length run)
      × ((sort_recv_buf (arrive ps k)).rcv_nxt ≡ k.rcv_nxt + length run)
arrive_complete top n ps k b v fits all =
    let s = arrive-Streams top ps k b v in
    let far = reaches top n ps k b v fits all in
    (s.run, s.queued, s.consecutive, omega (arith, s.counted, far), s.counted)

-- A sorted receiver is ready for the next datagram.
pub sort_recv_buf-IsReceiver :
    (top : ℕ) (k : Kcp) → IsReceiver top k → IsReceiver top (sort_recv_buf k)
unfolding sort_recv_buf
sort_recv_buf-IsReceiver top k v =
    let moved = sort_recv_buf-Moves top k v in
    record {
      ordered = Ascending-mono _ (suc (sort_recv_buf k).rcv_nxt) _ (omega arith) moved.gap;
      bounded = moved.rest_bounded;
      below = moved.capped v.below;
      room = v.room;
    }
