-- ===== src/Kcp/Packet/RoundTrip.antt =====
-- `KcpPacket`: storing a packet and parsing the bytes on the wire.
use zltool_kit.Kit.{
  ℕ, ◌+◌, ◌^◌, ◌≤◌, ◌<◌, ◌≡◌, ◌≢◌, refl, ap, ◌∙◌, List, [], ◌∷◌, ◌++◌, some, arith, length, take,
  drop, length-append, length-take, length-drop, append_assoc, le→not_ltb, ne→not_==,
}
use zltool_kit.Buffer.{contents, assign, empty_buffer, memcpy_at}
use zltool_kit.Buffer.Laws.{memcpy_at_whole, take-append_eq, drop-take}
use zltool_kit.Kcp.Header.{Header, IsWide, load_header, store_header, get_packet_size}
use zltool_kit.Kcp.Header.RoundTrip.{
  header_bytes, length-header_bytes, store_header-eq, load_header-header_bytes,
}
use zltool_kit.Kcp.Packet.{Packet, Uninit, payload, parse, load_from_data, store_to_data}

-- A packet whose length field agrees with its buffer, as every packet of the sender has it.
pub record IsWired (p : Packet) : Type 0 where
  pub wide : IsWide p.header
  pub sized_as : p.raw.size ≡ p.header.len + 24
  pub covers : p.raw.size ≤ length p.raw.mem
  pub short : p.header.len + 24 < 2 ^ 32

-- The bytes of a packet on the wire.
abbrev pub wire : Packet → List ℕ
wire p = header_bytes p.header ++ payload p

length-contents : (p : Packet) → IsWired p → length (contents p.raw) ≡ p.header.len + 24
length-contents p w = omega (arith, length-take p.raw.size p.raw.mem, w.sized_as, w.covers)

take-memcpy_at_front :
    (n : ℕ) (src mem : List ℕ) → length src ≡ n → take n (memcpy_at 0 src mem) ≡ src
take-memcpy_at_front n src mem h = take-append_eq n src (drop (0 + length src) mem) h

drop-contents : (p : Packet) → IsWired p → drop 24 (contents p.raw) ≡ payload p
drop-contents p w =
    ap (λ n. drop 24 (take n p.raw.mem)) {y = 24 + p.header.len} (omega (arith, w.sized_as))
    ∙ drop-take 24 p.header.len p.raw.mem

length-payload : (p : Packet) → IsWired p → length (payload p) ≡ p.header.len
length-payload p w = omega (
  arith,
  length-take p.header.len (drop 24 p.raw.mem),
  length-drop 24 p.raw.mem,
  w.sized_as,
  w.covers,
)

pub length-wire : (p : Packet) → IsWired p → length (wire p) ≡ p.header.len + 24
length-wire p w = omega (
  arith,
  length-append (header_bytes p.header) (payload p),
  length-header_bytes p.header,
  length-payload p w,
)

-- Storing puts the header in front of the payload in the packet's own buffer.
pub contents-store_to_data : (p : Packet) → IsWired p → contents (store_to_data p).raw ≡ wire p
unfolding store_to_data
contents-store_to_data p w =
    rw
      (
        store_header-eq p.header (contents p.raw) (omega (arith, length-contents p w)),
        store_to_data,
        drop-contents p w,
      )
      (take-memcpy_at_front p.raw.size (wire p) p.raw.mem
        (omega (arith, length-wire p w, w.sized_as)))

pub size-store_to_data : (p : Packet) → (store_to_data p).raw.size ≡ p.raw.size
unfolding store_to_data store_header
size-store_to_data p = ground arith

contents-assign :
    (u : Uninit) (n : ℕ) (bytes : List ℕ)
    → ((n : ℕ) → length (u.bytes n) ≡ n)
    → n ≢ 0
    → n ≤ length bytes
    → contents (assign u.bytes bytes n empty_buffer) ≡ take n bytes
unfolding assign
contents-assign u n bytes sized h k =
    let full : length (take n bytes ++ 0 ∷ []) ≡ length (u.bytes (n + 1)) =
      omega (arith, length-append (take n bytes) (0 ∷ []), length-take n bytes, sized (n + 1)) in
    rw (ne→not_== n 0 h, memcpy_at_whole (take n bytes ++ 0 ∷ []) (u.bytes (n + 1)) full)
      (take-append_eq n (take n bytes) (0 ∷ []) (omega (arith, length-take n bytes)))

pub size-assign :
    (u : Uninit) (n : ℕ) (bytes : List ℕ) → n ≢ 0 → (assign u.bytes bytes n empty_buffer).size ≡ n
unfolding assign
size-assign u n bytes h = ground arith

-- The packet that `parse` builds behind a loaded header, with `n` bytes of the data.
abbrev pub received : Uninit → List ℕ → ℕ → Header → Packet
received u d n h = record {
  header = h;
  raw = assign u.bytes d n empty_buffer;
  resendts = u.resendts;
  rto = u.rto;
  fastack = u.fastack;
  xmit = u.xmit;
}

pub parse_lem :
    (u : Uninit) (d : List ℕ) (n : ℕ) (h : Header)
    → load_header d ≡ some h
    → get_packet_size h ≡ n
    → n ≤ length d
    → parse u d ≡ some (received u d n h)
unfolding parse load_from_data
parse_lem u d n h loaded size fits = rw (loaded, parse, size, le→not_ltb (length d) n fits)

-- What `parse` makes of the bytes of a packet.
pub record Parses (u : Uninit) (p : Packet) (d : List ℕ) (q : Packet) : Type 0 where
  pub parsed : parse u d ≡ some q
  pub same_header : q.header ≡ p.header
  pub same_size : q.raw.size ≡ p.raw.size
  pub same_bytes : contents q.raw ≡ wire p

-- A packet whose length field agrees with its buffer parses back from its wire image, whatever follows
-- it in the datagram: to the same header, and a buffer of exactly the bytes of the image.
pub parse-wire :
    (u : Uninit) (p : Packet) (rest : List ℕ)
    → ((n : ℕ) → length (u.bytes n) ≡ n)
    → IsWired p
    → (q : Packet) × Parses u p (wire p ++ rest) q
parse-wire u p rest sized w =
    let d = wire p ++ rest in
    let n = p.header.len + 24 in
    let long : length d ≡ n + length rest =
      omega (arith, length-append (wire p) rest, length-wire p w) in
    let loaded : load_header d ≡ some p.header =
      ap load_header (append_assoc (header_bytes p.header) (payload p) rest)
      ∙ load_header-header_bytes p.header (payload p ++ rest) w.wide in
    let size : get_packet_size p.header ≡ n = unfold get_packet_size in omega (arith, w.short) in
    let q = received u d n p.header in
    (
      q,
      record {
        parsed = parse_lem u d n p.header loaded size (omega (arith, long));
        same_header = refl;
        same_size = size-assign u n d (omega arith) ∙ omega (arith, w.sized_as);
        same_bytes =
            contents-assign u n d sized (omega arith) (omega (arith, long))
            ∙ take-append_eq n (wire p) rest (length-wire p w);
      },
    )
