-- ===== src/Network/Socket/Sound.antt =====
-- What holds of the lists of a socket between two operations, and of one packet that is sent.
use zltool_kit.Kit.{
  ℕ, ◌≤◌, ◌<◌, ◌^◌, ◌≡◌, ◌≢◌, inl, inr, refl, Bool, true, List, [], ◌∷◌, ◌++◌, Option, none, some,
  All, All-append, ltb, ◌==◌, length, arith, length-append, Bool-cases,
}
use zltool_kit.Kit.Words.{u64}
use zltool_kit.Network.Kernel.{Answer, Chunk}
use zltool_kit.Network.SendMsg.{SendMsg, bytes_of, ids_of, calls_for, new_send_msg, send_loop}
use zltool_kit.Network.SendMsg.Conserve.{IsWhole, stops, refusal, send_loop_lem}
use zltool_kit.Network.SendMsg.Cut.{HasBytes, IsLeft}
use zltool_kit.Network.Socket.{Socket, complete, blocked, broken, eagain, judge, lend, regain}

-- A packet of the second-level list has something to send.
pub record IsReady (p : SendMsg) : Type 0 where
  pub whole : IsWhole p
  pub more : 0 < p.remain_size

-- The bytes of packets, and the calls with success that they are still to make.
abbrev pub packet_bytes : List SendMsg → List ℕ
packet_bytes [] = []
packet_bytes (p ∷ ps) = bytes_of p.chunks ++ packet_bytes ps

abbrev pub packet_calls : List SendMsg → List (ℕ × Bool)
packet_calls [] = []
packet_calls (p ∷ ps) = calls_for true (ids_of p.chunks) ++ packet_calls ps

-- The buffers of packets.
abbrev pub packet_chunks : List SendMsg → List Chunk
packet_chunks [] = []
packet_chunks (p ∷ ps) = p.chunks ++ packet_chunks ps

pub packet_chunks-HasBytes : (ps : List SendMsg) → All IsReady ps → All HasBytes (packet_chunks ps)
packet_chunks-HasBytes [] v = tt
packet_chunks-HasBytes (p ∷ ps) v =
    All-append HasBytes p.chunks (packet_chunks ps) v.0.whole.filled (packet_chunks-HasBytes ps v.1)

pub record IsSound (s : Socket) : Type 0 where
  pub ready : All IsReady s.sending
  pub filled : All HasBytes s.waiting
  pub small : length (bytes_of s.waiting) < 2 ^ 63

-- The buffers of both lists, of which nothing or the end is left.
abbrev pub pieces : Socket → List Chunk
pieces s = packet_chunks s.sending ++ s.waiting

pub pieces-HasBytes : (s : Socket) → IsSound s → All HasBytes (pieces s)
pieces-HasBytes s v =
    All-append HasBytes (packet_chunks s.sending) s.waiting
      (packet_chunks-HasBytes s.sending v.ready) v.filled

-- What the peer reads in the end if nothing fails: what the kernel has, and both lists.
abbrev pub stream : Socket → List ℕ
stream s = s.wire ++ (packet_bytes s.sending ++ bytes_of s.waiting)

-- The calls of the callback, if nothing fails.
abbrev pub outcome : Socket → List (ℕ × Bool)
outcome s = s.called ++ (packet_calls s.sending ++ calls_for true (ids_of s.waiting))

pub new_send_msg-IsReady :
    (c : Chunk) (cs : List Chunk) (wire : List ℕ)
    → All HasBytes (c ∷ cs)
    → length (bytes_of (c ∷ cs)) < 2 ^ 63
    → IsReady (new_send_msg (c ∷ cs) wire)
unfolding new_send_msg
new_send_msg-IsReady c cs wire h w =
    let sized = length-append c.rest (bytes_of cs) in
    let fits : u64 (length (bytes_of (c ∷ cs))) ≡ length (bytes_of (c ∷ cs)) = omega (arith, w) in
    record {
      whole = record {
        drained = λ z. absurd (omega (arith, z, fits, sized, h.0));
        filled = h;
        sized = fits;
        small = w;
      };
      more = omega (arith, fits, sized, h.0);
    }

-- A send of one packet, on whatever the answers are: the socket has moved on by what the packet has.
pub record Moves (answers : List Answer) (s : Socket) (p t : SendMsg) (error : Option ℕ)
    (rest : List Answer) : Type 0 where
  pub whole : IsWhole t
  pub bytes : t.wire ++ bytes_of t.chunks ≡ s.wire ++ bytes_of p.chunks
  pub calls :
      t.called ++ calls_for true (ids_of t.chunks) ≡ s.called ++ calls_for true (ids_of p.chunks)
  pub left : IsLeft p.chunks t.chunks
  pub finished : error ≡ none → t.remain_size ≡ 0
  pub pending : t.remain_size ≡ 0 → stops rest ≡ true
  pub still : t.remain_size ≡ 0 → refusal rest ≡ refusal answers
  pub told : (e : ℕ) → error ≡ some e → refusal answers ≡ some e

pub send_one :
    (answers : List Answer) (s : Socket) (p : SendMsg)
    → IsReady p
    → stops answers ≡ true
    → (t : SendMsg) × (error : Option ℕ) × (rest : List Answer) × (send_loop answers (lend s p)
        ≡ some (t, (error, rest)))
      × Moves answers s p t error rest
send_one answers s p v w =
    let lent : IsWhole (lend s p) = record {
      drained = v.whole.drained;
      filled = v.whole.filled;
      sized = v.whole.sized;
      small = v.whole.small;
    } in
    let (t, error, rest, e, x) = send_loop_lem answers (lend s p) lent w in
    (
      t,
      error,
      rest,
      e,
      record {
        whole = x.advances.whole;
        bytes = x.advances.bytes;
        calls = x.advances.calls;
        left = x.advances.left;
        finished = x.finished;
        pending = x.pending;
        still = x.still;
        told = x.told;
      },
    )

-- The error that a broken packet reports is that of the kernel's refusal.
pub errno-refusal :
    (answers : List Answer) (s : Socket) (p t : SendMsg) (error : Option ℕ) (rest : List Answer)
    → Moves answers s p t error rest
    → 0 < t.remain_size
    → refusal answers ≡ some (regain s t error).errno
errno-refusal answers s p t none rest x more = absurd (omega (arith, x.finished refl, more))
errno-refusal answers s p t (some e) rest x more = x.told e refl

-- The three ways a packet is judged, and what is left of it.
pub data Judged (before after errno : ℕ) : Type 0 where
  is_complete : judge before after errno ≡ complete → after ≡ 0 → Judged before after errno
  is_blocked : judge before after errno ≡ blocked → 0 < after → Judged before after errno
  is_broken :
      judge before after errno ≡ broken errno
      → before ≤ after
      → errno ≢ eagain
      → Judged before after errno

pub judge-Judged : (before after errno : ℕ) → 0 < before → Judged before after errno
unfolding judge
judge-Judged before after errno h = elim (Bool-cases (ltb after before)) [
  | inl sent ↦ elim (Bool-cases (after == 0)) [
    | inl all ↦ is_complete (rw (sent, all) refl) (ground arith)
    | inr part ↦ is_blocked (rw (sent, part) refl) (ground arith)
  ]
  | inr nothing ↦ elim (Bool-cases (errno == eagain)) [
    | inl again ↦ is_blocked (rw (nothing, again) refl) (ground arith)
    | inr other ↦ is_broken (rw (nothing, other) refl) (ground arith) (ground arith)
  ]
]
