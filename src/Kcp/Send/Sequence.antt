-- ===== src/Kcp/Send/Sequence.antt =====
-- The numbers of the packets in flight: what is acknowledged leaves `_snd_buf`, what fits the window
-- enters it from the queue.
use zltool_kit.Kit.{
  ℕ, suc, ◌+◌, ◌≤◌, ◌<◌, ◌^◌, ◌≡◌, ◌⊎◌, inl, inr, refl, ap, ◌∙◌, List, [], ◌∷◌, ◌++◌, none, arith,
  length, leb, ltb, ◌==◌, if◌then◌else◌, Bool-cases, append_assoc, append-nil, max, All, All-mono,
  All-append,
}
use zltool_kit.Kit.Words.{add32}
use zltool_kit.Kcp.Packet.{Packet}
use zltool_kit.Kcp.State.{Kcp}
use zltool_kit.Kcp.Receive.Order.{Ascending, Ascending-mono, find_sn, find_sn_below}
use zltool_kit.Kcp.Send.{
  drop_below, remove_sn, drop_cache_by_una, drop_cache_by_ack, first_sn, number_packet,
  number_ready, Numbered, sort_send_queue, send_window,
}

-- The numbers in flight rise strictly, below `_snd_nxt`, and `_snd_una` is the first of them.
pub record IsSender (k : Kcp) : Type 0 where
  pub ordered : Ascending k.snd_una k.snd_buf
  pub bounded : All (λ p. p.header.sn < k.snd_nxt) k.snd_buf
  pub first : k.snd_una ≡ first_sn k.snd_nxt k.snd_buf

drop_below-Ascending :
    (una lo : ℕ) (ps : List Packet) → Ascending lo ps → Ascending lo (drop_below una ps)
unfolding drop_below
drop_below-Ascending una lo [] a = tt
drop_below-Ascending una lo (p ∷ ps) a = ground (
  arith,
  Ascending-mono lo (suc p.header.sn) (drop_below una ps),
  drop_below-Ascending una (suc p.header.sn) ps a.1,
)

drop_below-All :
    (una top : ℕ) (ps : List Packet)
    → All (λ p. p.header.sn < top) ps
    → All (λ p. p.header.sn < top) (drop_below una ps)
unfolding drop_below
drop_below-All una top [] a = tt
drop_below-All una top (p ∷ ps) a = ground (arith, drop_below-All una top ps a.1)

-- Exactly the packets before `una` leave the buffer.
pub find_sn-drop_below :
    (una sn lo : ℕ) (ps : List Packet)
    → Ascending lo ps
    → find_sn sn (drop_below una ps) ≡ (if leb una sn then find_sn sn ps else none)
unfolding drop_below
find_sn-drop_below una sn lo [] a = ground arith
find_sn-drop_below una sn lo (p ∷ ps) a = ground (
  arith,
  find_sn-drop_below una sn (suc p.header.sn) ps a.1,
  find_sn_below sn (suc p.header.sn) ps,
)

remove_sn-Ascending :
    (sn lo : ℕ) (ps : List Packet) → Ascending lo ps → Ascending lo (remove_sn sn ps)
unfolding remove_sn
remove_sn-Ascending sn lo [] a = tt
remove_sn-Ascending sn lo (p ∷ ps) a =
    ground (
      arith,
      Ascending-mono lo (suc p.header.sn) ps,
      remove_sn-Ascending sn (suc p.header.sn) ps a.1,
    )

remove_sn-All :
    (sn top : ℕ) (ps : List Packet)
    → All (λ p. p.header.sn < top) ps
    → All (λ p. p.header.sn < top) (remove_sn sn ps)
unfolding remove_sn
remove_sn-All sn top [] a = tt
remove_sn-All sn top (p ∷ ps) a = ground (arith, remove_sn-All sn top ps a.1)

-- Exactly the packet with the acknowledged number leaves the buffer.
pub find_sn-remove_sn :
    (acked sn lo : ℕ) (ps : List Packet)
    → Ascending lo ps
    → find_sn sn (remove_sn acked ps) ≡ (if sn == acked then none else find_sn sn ps)
unfolding remove_sn
find_sn-remove_sn acked sn lo [] a = ground arith
find_sn-remove_sn acked sn lo (p ∷ ps) a = ground (
  arith,
  find_sn-remove_sn acked sn (suc p.header.sn) ps a.1,
  find_sn_below sn (suc p.header.sn) ps,
)

first_sn-Ascending :
    (lo next : ℕ) (ps : List Packet) → Ascending lo ps → Ascending (first_sn next ps) ps
first_sn-Ascending lo next [] a = tt
first_sn-Ascending lo next (p ∷ ps) a = (omega arith, a.1)

-- A cumulative acknowledgement keeps the numbering of a well-formed sender, and takes out exactly the
-- packets it covers.
pub drop_cache_by_una_lem :
    (una sn : ℕ) (k : Kcp)
    → IsSender k
    → IsSender (drop_cache_by_una una k)
      × (find_sn sn (drop_cache_by_una una k).snd_buf
          ≡ (if leb una sn then find_sn sn k.snd_buf else none))
unfolding drop_cache_by_una
drop_cache_by_una_lem una sn k v = elim (Bool-cases (leb una k.snd_una)) [
  | inl e ↦ rw e (v, ground (arith, find_sn_below sn k.snd_una k.snd_buf))
  | inr e ↦ rw e (
    record {
      ordered =
          first_sn-Ascending k.snd_una k.snd_nxt (drop_below una k.snd_buf)
            (drop_below-Ascending una k.snd_una k.snd_buf v.ordered);
      bounded = drop_below-All una k.snd_nxt k.snd_buf v.bounded;
      first = refl;
    },
    find_sn-drop_below una sn k.snd_una k.snd_buf v.ordered,
  )
]

-- An acknowledgement of one packet keeps the numbering of a well-formed sender, and takes out exactly
-- that packet.
pub drop_cache_by_ack_lem :
    (acked sn : ℕ) (k : Kcp)
    → IsSender k
    → IsSender (drop_cache_by_ack acked k)
      × (find_sn sn (drop_cache_by_ack acked k).snd_buf
          ≡ (if sn == acked then none else find_sn sn k.snd_buf))
unfolding drop_cache_by_ack
drop_cache_by_ack_lem acked sn k v = elim (Bool-cases (ltb acked k.snd_una)) [
  | inl e ↦ rw e (v, ground (arith, find_sn_below sn k.snd_una k.snd_buf))
  | inr e ↦ rw e (
    record {
      ordered =
          first_sn-Ascending k.snd_una k.snd_nxt (remove_sn acked k.snd_buf)
            (remove_sn-Ascending acked k.snd_una k.snd_buf v.ordered);
      bounded = remove_sn-All acked k.snd_nxt k.snd_buf v.bounded;
      first = refl;
    },
    find_sn-remove_sn acked sn k.snd_una k.snd_buf v.ordered,
  )
]

-- The packets as they enter the buffer, numbered from `next` on.
abbrev pub numbered : ℕ → ℕ → List Packet → List Packet
numbered conv next [] = []
numbered conv next (p ∷ ps) = number_packet conv next p ∷ numbered conv (suc next) ps

-- What the loop of `sortSendQueue` did with `limit` for the end of the window.
pub record Enters (conv limit next : ℕ) (ps buf : List Packet) (n : Numbered) : Type 0 where
  pub taken : List Packet
  pub split : ps ≡ taken ++ n.queue
  pub entered : n.buf ≡ buf ++ numbered conv next taken
  pub counted : n.next ≡ next + length taken
  pub within : n.next ≤ max next limit
  pub maximal : (n.queue ≡ []) ⊎ (limit ≤ n.next)

enter :
    {conv limit next : ℕ} {p : Packet} {ps buf : List Packet} {n : Numbered}
    → Enters conv limit (suc next) ps (buf ++ number_packet conv next p ∷ []) n
    → next < limit
    → Enters conv limit next (p ∷ ps) buf n
enter {conv} {limit} {next} {p} {ps} {buf} v h = record {
  taken = p ∷ v.taken;
  split = ap (◌∷◌ p) v.split;
  entered =
      v.entered
      ∙ append_assoc buf (number_packet conv next p ∷ []) (numbered conv (suc next) v.taken);
  counted = omega (arith, v.counted);
  within = omega (arith, v.within);
  maximal = v.maximal;
}

pub number_ready-Enters :
    (conv limit : ℕ) (ps : List Packet) (next : ℕ) (buf : List Packet)
    → next + length ps < 2 ^ 32
    → Enters conv limit next ps buf (number_ready conv limit ps next buf)
unfolding number_ready
number_ready-Enters conv limit [] next buf h = record {
  taken = [];
  split = refl;
  entered = rw append-nil;
  counted = omega arith;
  within = omega arith;
  maximal = inl refl;
}
number_ready-Enters conv limit (p ∷ ps) next buf h = elim (Bool-cases (leb limit next)) [
  | inl e ↦ rw e (record {
    taken = [];
    split = refl;
    entered = rw append-nil;
    counted = omega arith;
    within = omega arith;
    maximal = inr (ground arith);
  })
  | inr e ↦
      let step : add32 next 1 ≡ suc next = omega arith in
      rw (e, step)
        (enter
          (number_ready-Enters conv limit ps (suc next) (buf ++ number_packet conv next p ∷ [])
            (omega arith))
          (ground arith))
]

Ascending-append_numbered :
    (conv lo next : ℕ) (buf taken : List Packet)
    → lo ≤ next
    → Ascending lo buf
    → All (λ p. p.header.sn < next) buf
    → Ascending lo (buf ++ numbered conv next taken)
Ascending-append_numbered conv lo next [] [] h a b = tt
Ascending-append_numbered conv lo next [] (t ∷ ts) h a b =
    (h, Ascending-append_numbered conv (suc next) (suc next) [] ts (omega arith) tt tt)
Ascending-append_numbered conv lo next (p ∷ buf) ts h a b =
    (a.0, Ascending-append_numbered conv (suc p.header.sn) next buf ts b.0 a.1 b.1)

numbered-All :
    (conv next : ℕ) (ts : List Packet)
    → All (λ p. p.header.sn < next + length ts) (numbered conv next ts)
numbered-All conv next [] = tt
numbered-All conv next (t ∷ ts) = (
  omega arith,
  All-mono (λ p. p.header.sn < suc next + length ts) (λ p. p.header.sn < next + suc (length ts))
      (λ p h. omega arith) (numbered conv (suc next) ts) (numbered-All conv (suc next) ts),
)

first_sn-append_numbered :
    (conv next : ℕ) (buf taken : List Packet)
    → first_sn next buf ≡ first_sn (next + length taken) (buf ++ numbered conv next taken)
first_sn-append_numbered conv next [] [] = omega arith
first_sn-append_numbered conv next [] (t ∷ ts) = refl
first_sn-append_numbered conv next (p ∷ buf) ts = refl

first_sn-le :
    (next : ℕ) (ps : List Packet) → All (λ p. p.header.sn < next) ps → first_sn next ps ≤ next
first_sn-le next [] b = omega arith
first_sn-le next (p ∷ ps) b = omega arith

Enters-IsSender :
    (k : Kcp) (limit : ℕ) {n : Numbered}
    → IsSender k
    → Enters k.conv limit k.snd_nxt k.snd_queue k.snd_buf n
    → IsSender (record k { snd_queue = n.queue; snd_nxt = n.next; snd_buf = n.buf })
Enters-IsSender k limit {n} v e = record {
  ordered = rw e.entered (
      Ascending-append_numbered k.conv k.snd_una k.snd_nxt k.snd_buf e.taken
        (omega (arith, v.first, first_sn-le k.snd_nxt k.snd_buf v.bounded)) v.ordered v.bounded);
  bounded =
      rw (e.entered, e.counted)
        (All-append (λ p. p.header.sn < k.snd_nxt + length e.taken) k.snd_buf
          (numbered k.conv k.snd_nxt e.taken)
          (All-mono (λ p. p.header.sn < k.snd_nxt) (λ p. p.header.sn < k.snd_nxt + length e.taken)
            (λ p h. omega arith) k.snd_buf v.bounded)
          (numbered-All k.conv k.snd_nxt e.taken));
  first =
      rw (e.entered, e.counted)
        (v.first ∙ first_sn-append_numbered k.conv k.snd_nxt k.snd_buf e.taken);
}

-- While no number wraps, `sortSendQueue` keeps the numbering of a well-formed sender. It takes
-- packets from the front of the queue in order, gives them the numbers from `_snd_nxt` on, fills
-- the window and does not overfill it: it stops at the window's end or at the end of the queue.
pub sort_send_queue_lem :
    (k : Kcp)
    → IsSender k
    → k.snd_nxt + length k.snd_queue < 2 ^ 32
    → k.snd_una + send_window k < 2 ^ 32
    → IsSender (sort_send_queue k)
      × Enters k.conv (k.snd_una + send_window k) k.snd_nxt k.snd_queue k.snd_buf (record {
        queue = (sort_send_queue k).snd_queue;
        next = (sort_send_queue k).snd_nxt;
        buf = (sort_send_queue k).snd_buf;
      })
sort_send_queue_lem k v q w =
    let e = number_ready-Enters k.conv limit k.snd_queue k.snd_nxt k.snd_buf q in
    let room : add32 k.snd_una (send_window k) ≡ limit = omega arith in
    unfold sort_send_queue in rw room (Enters-IsSender k limit v e, e)
  where
    limit : ℕ
    limit = k.snd_una + send_window k
