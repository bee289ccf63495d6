-- ===== src/Kcp/Flush/Pool.antt =====
-- `_buffer_pool` of src/Network/Kcp.cpp: how packets are put together into datagrams.
use zltool_kit.Kit.{
  ℕ, ◌+◌, ◌≤◌, ◌≡◌, refl, sym, ap, ◌∙◌, List, [], ◌∷◌, ◌++◌, some, arith, ltb, length, concat, All,
  All-append, append_assoc, append-nil, length-take, Bool-cases, inl, inr, if◌then◌else◌,
  le→not_ltb, concat-append,
}
use zltool_kit.Buffer.{contents, memcpy_at}
use zltool_kit.Buffer.Laws.{length-memcpy_at, take-memcpy_at_end}
use zltool_kit.Kcp.Packet.{Packet, store_to_data}
use zltool_kit.Kcp.Packet.RoundTrip.{
  IsWired, wire, length-wire, contents-store_to_data, size-store_to_data,
}
use zltool_kit.Kcp.State.{Kcp, Event, wrote, delivered, dead}
use zltool_kit.Kcp.Flush.{flush_pool, append_pool, send_packet}

-- The datagrams among the events.
abbrev pub datagrams : List Event → List (List ℕ)
datagrams [] = []
datagrams (wrote d ∷ es) = d ∷ datagrams es
datagrams (delivered d ∷ es) = datagrams es
datagrams (dead n ∷ es) = datagrams es

pub datagrams-append : (es fs : List Event) → datagrams (es ++ fs) ≡ datagrams es ++ datagrams fs
datagrams-append [] fs = refl
datagrams-append (wrote d ∷ es) fs = ap (◌∷◌ d) (datagrams-append es fs)
datagrams-append (delivered d ∷ es) fs = datagrams-append es fs
datagrams-append (dead n ∷ es) fs = datagrams-append es fs

-- All bytes that were handed to `onWrite`, and those that wait in the pool.
abbrev pub outgoing : Kcp → List ℕ
outgoing k = concat (datagrams k.events) ++ contents k.buffer_pool

-- The pool is a block with room for `_mtu` bytes, and every datagram so far kept to `_mtu`.
pub record IsPooled (k : Kcp) : Type 0 where
  pub within : k.buffer_pool.size ≤ k.settings.mtu
  pub room : k.settings.mtu ≤ k.buffer_pool.capacity
  pub whole_block : k.buffer_pool.capacity ≡ length k.buffer_pool.mem
  pub bounded : All (λ d. length d ≤ k.settings.mtu) (datagrams k.events)

pub flush_pool-IsPooled : (k : Kcp) → IsPooled k → IsPooled (flush_pool k)
unfolding flush_pool
flush_pool-IsPooled k v = record {
  within = omega arith;
  room = v.room;
  whole_block = v.whole_block;
  bounded = rw (datagrams-append k.events (wrote (contents k.buffer_pool) ∷ [])) (
      All-append (λ d. length d ≤ k.settings.mtu) (datagrams k.events) (contents k.buffer_pool ∷ [])
        v.bounded (omega (arith, length-take k.buffer_pool.size k.buffer_pool.mem, v.within), tt));
}

pub outgoing-flush_pool : (k : Kcp) → outgoing (flush_pool k) ≡ outgoing k
unfolding flush_pool
outgoing-flush_pool k = rw (
  datagrams-append k.events (wrote (contents k.buffer_pool) ∷ []),
  concat-append (datagrams k.events) (contents k.buffer_pool ∷ []),
  append-nil (contents k.buffer_pool),
  append-nil,
)

-- What an operation that only sends has done: `bytes` went out, and nothing else changed.
pub record Sends (k l : Kcp) (bytes : List ℕ) : Type 0 where
  pub pooled : IsPooled l
  pub sent : outgoing l ≡ outgoing k ++ bytes
  pub same : l ≡ record k { events = l.events; buffer_pool = l.buffer_pool }

append_pool-Sends :
    (bytes : List ℕ) (n : ℕ) (k : Kcp)
    → IsPooled k
    → length bytes ≡ n
    → k.buffer_pool.size + n ≤ k.settings.mtu
    → (l : Kcp) × (append_pool bytes n k ≡ some l) × Sends k l bytes
unfolding append_pool
append_pool-Sends bytes n k v e h = (
  record k {
    buffer_pool = record (k.buffer_pool) {
      mem = memcpy_at k.buffer_pool.size bytes k.buffer_pool.mem;
      size = k.buffer_pool.size + n;
    };
  },
  rw (le→not_ltb k.buffer_pool.capacity (k.buffer_pool.size + n) (omega (arith, v.room))),
  record {
    pooled = record {
      within = h;
      room = v.room;
      whole_block = omega (
        arith,
        v.whole_block,
        v.room,
        length-memcpy_at k.buffer_pool.size bytes k.buffer_pool.mem,
      );
      bounded = v.bounded;
    };
    sent =
        ap (◌++◌ (concat (datagrams k.events))) (
          take-memcpy_at_end k.buffer_pool.size n bytes k.buffer_pool.mem e
            (omega (arith, v.whole_block, v.room)))
        ∙ sym (append_assoc (concat (datagrams k.events)) (contents k.buffer_pool) bytes);
    same = refl;
  },
)

-- The room is made first, if the packet does not fit what the pool holds.
make_room : ℕ → Kcp → Kcp
make_room n k = if ltb k.settings.mtu (n + k.buffer_pool.size) then flush_pool k else k

make_room-IsPooled : (n : ℕ) (k : Kcp) → IsPooled k → IsPooled (make_room n k)
unfolding make_room
make_room-IsPooled n k v = elim (Bool-cases (ltb k.settings.mtu (n + k.buffer_pool.size))) [
  | inl e ↦ rw e (flush_pool-IsPooled k v)
  | inr e ↦ rw e v
]

outgoing-make_room : (n : ℕ) (k : Kcp) → outgoing (make_room n k) ≡ outgoing k
unfolding make_room
outgoing-make_room n k = elim (Bool-cases (ltb k.settings.mtu (n + k.buffer_pool.size))) [
  | inl e ↦ rw e (outgoing-flush_pool k)
  | inr e ↦ rw e
]

make_room-fits :
    (n : ℕ) (k : Kcp)
    → n ≤ k.settings.mtu
    → (make_room n k).buffer_pool.size + n ≤ (make_room n k).settings.mtu
unfolding make_room flush_pool
make_room-fits n k h = ground arith

make_room-same :
    (n : ℕ) (k : Kcp)
    → make_room n k
      ≡ record k { events = (make_room n k).events; buffer_pool = (make_room n k).buffer_pool }
unfolding make_room flush_pool
make_room-same n k = elim (Bool-cases (ltb k.settings.mtu (n + k.buffer_pool.size))) [
  | inl e ↦ rw e
  | inr e ↦ rw e
]

Sends-flush_pool :
    {k m l : Kcp} {bytes : List ℕ}
    → outgoing m ≡ outgoing k
    → m ≡ record k { events = m.events; buffer_pool = m.buffer_pool }
    → Sends m l bytes
    → Sends k l bytes
Sends-flush_pool {k} {m} {l} {bytes} o e s = record {
  pooled = s.pooled;
  sent = s.sent ∙ ap (λ b. b ++ bytes) o;
  same = s.same ∙ ap (λ (x : Kcp). record x { events = l.events; buffer_pool = l.buffer_pool }) e;
}

send_packet_eq :
    (p : Packet) (k l : Kcp)
    → append_pool
        (contents (store_to_data p).raw)
        (store_to_data p).raw.size
        (make_room (store_to_data p).raw.size k)
      ≡ some l
    → send_packet p k ≡ some (store_to_data p, l)
unfolding send_packet make_room
send_packet_eq p k l e = rw (e, send_packet)

-- A packet that fits `_mtu`, with a length field that agrees with its buffer, is sent from a
-- well-formed pool: its wire image goes behind all that was sent before, every datagram keeps to
-- `_mtu`, no copy leaves the pool, and nothing else of the state changes.
pub send_packet_lem :
    (p : Packet) (k : Kcp)
    → IsPooled k
    → IsWired p
    → p.raw.size ≤ k.settings.mtu
    → (l : Kcp) × (send_packet p k ≡ some (store_to_data p, l)) × Sends k l (wire p)
send_packet_lem p k v w h =
    let n = (store_to_data p).raw.size in
    let small : n ≤ k.settings.mtu = omega (arith, size-store_to_data p) in
    let long : length (contents (store_to_data p).raw) ≡ n =
      ap length (contents-store_to_data p w)
      ∙ omega (arith, length-wire p w, w.sized_as, size-store_to_data p) in
    let (l, e, s) =
      append_pool-Sends (contents (store_to_data p).raw) n (make_room n k)
        (make_room-IsPooled n k v) long (make_room-fits n k small) in
    (
      l,
      send_packet_eq p k l e,
      rw (contents-store_to_data p w) at
          (Sends-flush_pool {k = k} (outgoing-make_room n k) (make_room-same n k) s),
    )
