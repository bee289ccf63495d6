-- ===== src/Kcp/Packet.antt =====
-- `KcpPacket`: a header, the retransmission state of a segment, and the buffer with its bytes.
pub mod RoundTrip
mod Tests
use zltool_kit.Kit.{ℕ, ◌+◌, List, Option, none, some, ltb, if◌then◌else◌, length, take, drop}
use zltool_kit.Kit.Words.{u32}
use zltool_kit.Buffer.{BufferRaw, empty_buffer, contents, set_capacity, memcpy_at, assign}
use zltool_kit.Kcp.Header.{Header, header_size, get_packet_size, load_header, store_header}

pub record Packet : Type 0 where
  pub header : Header
  pub raw : BufferRaw
  pub resendts : ℕ
  pub rto : ℕ
  pub fastack : ℕ
  pub xmit : ℕ

-- What members without an initialiser and fresh memory hold before the program writes them.
pub record Uninit : Type 0 where
  pub conv : ℕ
  pub wnd : ℕ
  pub ts : ℕ
  pub sn : ℕ
  pub una : ℕ
  pub resendts : ℕ
  pub rto : ℕ
  pub fastack : ℕ
  pub xmit : ℕ
  pub bytes : ℕ → List ℕ

-- `setPayLoadSize`: the capacity covers the new size, so `setSize` cannot throw.
unfoldable pub set_payload_size : Uninit → ℕ → Packet → Packet
unfolding set_capacity
set_payload_size u n p =
    let grown = set_capacity u.bytes (n + header_size + 1) p.raw in
    record p {
      header = record (p.header) { len = u32 n };
      raw = record grown { size = n + header_size };
    }

-- `KcpPacket(conv, cmd, payloadSize)`.
unfoldable pub new_packet : Uninit → ℕ → ℕ → ℕ → Packet
unfolding set_payload_size
new_packet u conv cmd n = set_payload_size u n (record {
  header = record {
    conv = conv;
    cmd = cmd;
    frg = 0;
    wnd = u.wnd;
    ts = u.ts;
    sn = u.sn;
    una = u.una;
    len = 0;
  };
  raw = empty_buffer;
  resendts = u.resendts;
  rto = u.rto;
  fastack = u.fastack;
  xmit = u.xmit;
})

-- The `getLen()` bytes at `getPayloadData()`.
abbrev pub payload : Packet → List ℕ
payload p = take p.header.len (drop header_size p.raw.mem)

-- `memcpy(getPayloadData() + off, src, n)`.
unfoldable pub write_payload : ℕ → List ℕ → Packet → Packet
write_payload off src p = record p {
  raw = record (p.raw) { mem = memcpy_at (header_size + off) src p.raw.mem };
}

-- `loadFromData`, after the header has been read: `assign` copies the packet's bytes.
unfoldable pub load_from_data : Uninit → List ℕ → Header → Option Packet
load_from_data u d h =
    if ltb (length d) (get_packet_size h)
    then none
    else some (record {
      header = h;
      raw = assign u.bytes d (get_packet_size h) empty_buffer;
      resendts = u.resendts;
      rto = u.rto;
      fastack = u.fastack;
      xmit = u.xmit;
    })

-- `KcpPacket::parse`; `none` is the null pointer.
unfoldable pub parse : Uninit → List ℕ → Option Packet
parse u d = elim (load_header d) [ none ↦ none | some h ↦ load_from_data u d h ]

-- `storeToData`: the header is written over the first bytes of the packet's own buffer.
unfoldable pub store_to_data : Packet → Packet
unfolding store_header
store_to_data p = elim (store_header p.header (contents p.raw)) [
  | none ↦ p
  | some d ↦ record p { raw = record (p.raw) { mem = memcpy_at 0 d p.raw.mem } }
]
