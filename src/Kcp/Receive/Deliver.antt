-- ===== src/Kcp/Receive/Deliver.antt =====
-- What `onData` hands to the read callback.
use zltool_kit.Kit.{Bool}
use zltool_kit.Kit.{
  ℕ, zero, suc, ◌+◌, ◌-◌, ◌≤◌, ◌<◌, ◌^◌, ◌≡◌, refl, ◌≢◌, ◌∙◌, List, [], ◌∷◌, ◌++◌, some, arith, leb,
  ne→not_==, lt→not_leb, if◌then◌else◌, length, drop, All, append_assoc, append-nil, length-take,
  length-drop, map,
}
use zltool_kit.Kit.Words.{u16}
use zltool_kit.Buffer.{memcpy_at}
use zltool_kit.Buffer.Laws.{memcpy_at_whole}
use zltool_kit.Kcp.Packet.{Packet, Uninit, payload}
use zltool_kit.Kcp.State.{Kcp, delivered, emit}
use zltool_kit.Kcp.Receive.{
  take_message, deliver_all, peeksize, message_length, sort_recv_buf, on_data, fast_recover,
  get_rcv_wnd_unused,
}

-- A fragment that fits in a message of `size` bytes and lies in its own block.
pub record IsSound (size : ℕ) (p : Packet) : Type 0 where
  pub fits : p.header.len ≤ size
  pub held : 24 + p.header.len ≤ p.raw.capacity
  pub whole_block : p.raw.capacity ≡ length p.raw.mem

pub record IsInner (size : ℕ) (p : Packet) : Type 0 where
  pub sound : IsSound size p
  pub more : p.header.frg ≢ 0

-- A message of several fragments, each no longer than the message and within its own block, is
-- delivered as the last fragment's bytes at the front of a fresh buffer of the whole message's
-- size: no byte of an earlier fragment reaches the application.
pub take_message_last :
    (u : Uninit) (size : ℕ) (inner : List Packet) (last : Packet) (rest : List Packet)
    → All (IsInner size) inner
    → IsSound size last
    → last.header.frg ≡ 0
    → take_message u size (inner ++ last ∷ rest)
      ≡ some (memcpy_at 0 (payload last) (u.bytes size), rest)
unfolding take_message
take_message_last u size [] last rest a s z = ground arith
take_message_last u size (p ∷ inner) last rest a s z = ground (
  arith,
  a.0.sound.fits,
  a.0.sound.held,
  a.0.more,
  take_message_last u size inner last rest a.1 s z,
)

-- A message in one fragment.
pub record IsMessage (p : Packet) : Type 0 where
  pub alone : p.header.frg ≡ 0
  pub filled : 0 < p.header.len
  pub small : p.header.len < 2 ^ 31
  pub held : 24 + p.header.len ≤ p.raw.capacity
  pub whole_block : p.raw.capacity ≡ length p.raw.mem

length-payload : (p : Packet) → IsMessage p → length (payload p) ≡ p.header.len
length-payload p m = omega (
  arith,
  length-take p.header.len (drop 24 p.raw.mem),
  length-drop 24 p.raw.mem,
  m.held,
  m.whole_block,
)

peeksize_message : (p : Packet) (ps : List Packet) → IsMessage p → peeksize (p ∷ ps) ≡ p.header.len
unfolding peeksize message_length
peeksize_message p ps m = ground (arith, m.alone, m.small)

take_message_message :
    (u : Uninit) (p : Packet) (ps : List Packet)
    → ((n : ℕ) → length (u.bytes n) ≡ n)
    → IsMessage p
    → take_message u p.header.len (p ∷ ps) ≡ some (payload p, ps)
unfolding take_message
take_message_message u p ps h m = ground (
  arith,
  m.alone,
  m.held,
  memcpy_at_whole (payload p) (u.bytes p.header.len),
  length-payload p m,
  h p.header.len,
)

deliver_all_step :
    (u : Uninit) (fuel : ℕ) (p : Packet) (ps : List Packet) (k : Kcp)
    → ((n : ℕ) → length (u.bytes n) ≡ n)
    → k.rcv_queue ≡ p ∷ ps
    → IsMessage p
    → deliver_all u (suc fuel) k
      ≡ deliver_all u fuel (emit (delivered (payload p)) (record k { rcv_queue = ps }))
unfolding deliver_all
deliver_all_step u fuel p ps k h e m = rw (
  e,
  peeksize_message p ps m,
  take_message_message u p ps h m,
  ne→not_== p.header.len 0 (omega (arith, m.filled)),
  lt→not_leb (2 ^ 31) p.header.len m.small,
)

-- With only whole messages in the queue the outer loop delivers them all, in order, and empties it.
pub deliver_all_messages :
    (u : Uninit) (fuel : ℕ) (ps : List Packet) (k : Kcp)
    → ((n : ℕ) → length (u.bytes n) ≡ n)
    → k.rcv_queue ≡ ps
    → All IsMessage ps
    → length ps < fuel
    → deliver_all u fuel k
      ≡ some (record k { rcv_queue = []; events = k.events ++ map (λ p. delivered (payload p)) ps })
deliver_all_messages u zero ps k h e m f = absurd (omega arith)
deliver_all_messages u (suc fuel) [] k h e m f =
    rw (append-nil) (unfold deliver_all peeksize in rw e)
deliver_all_messages u (suc fuel) (p ∷ ps) k h e m f =
    deliver_all_step u fuel p ps k h e m.0
    ∙ deliver_all_messages u fuel ps (emit (delivered (payload p)) (record k { rcv_queue = ps })) h
        refl m.1 (omega arith)
    ∙ rw append_assoc

-- A message whose fragments are not all there stays in the queue.
pub peeksize_incomplete :
    (p : Packet) (ps : List Packet) → length (p ∷ ps) < p.header.frg + 1 → peeksize (p ∷ ps) ≡ 0
unfolding peeksize
peeksize_incomplete p ps h = ground arith

-- `onData` with only messages of one fragment and at least one byte in the sorted queue: it
-- completes, hands the sorted queue's payloads out in order after what was handed out before, and
-- empties the queue.
pub on_data_messages :
    (u : Uninit) (k : Kcp)
    → ((n : ℕ) → length (u.bytes n) ≡ n)
    → All IsMessage (sort_recv_buf k).rcv_queue
    → (l : Kcp) × (on_data u k ≡ some l)
      × (l.rcv_queue ≡ [])
      × (l.events ≡ k.events ++ map (λ p. delivered (payload p)) (sort_recv_buf k).rcv_queue)
unfolding on_data
on_data_messages u k h m = (
  fast_recover was_full done,
  rw (
    deliver_all_messages u (length queue + 1) queue (sort_recv_buf k) h refl m (omega arith),
    on_data,
  ),
  unfold fast_recover in ground arith,
  unfold fast_recover sort_recv_buf in ground arith,
)
  where
    queue : List Packet
    queue = (sort_recv_buf k).rcv_queue

    was_full : Bool
    was_full = leb (sort_recv_buf k).settings.rcv_wnd (length queue)

    done : Kcp
    done = record (sort_recv_buf k) {
      rcv_queue = [];
      events = (sort_recv_buf k).events ++ map (λ p. delivered (payload p)) queue;
    }

-- With fewer than 2 ^ 16 packets waiting, the advertised window is what is left of `_rcv_wnd`, cut to
-- 16 bits; but with more packets waiting than `_rcv_wnd`, the subtraction wraps and a window just
-- below 2 ^ 16 is advertised instead of 0.
pub get_rcv_wnd_unused_lem :
    (k : Kcp)
    → k.settings.rcv_wnd < 2 ^ 32
    → length k.rcv_queue < 2 ^ 16
    → u16 (get_rcv_wnd_unused k) ≡ (
        if leb (length k.rcv_queue) k.settings.rcv_wnd
        then u16 (k.settings.rcv_wnd - length k.rcv_queue)
        else 2 ^ 16 - (length k.rcv_queue - k.settings.rcv_wnd))
unfolding get_rcv_wnd_unused
get_rcv_wnd_unused_lem k w q = ground arith
