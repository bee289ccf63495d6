-- ===== src/Kcp/Flush/Acks.antt =====
-- `sendAckList`: one acknowledgement for each entry of `_acklist`, in order.
use zltool_kit.Kit.{
  ℕ, ◌+◌, ◌≤◌, ◌<◌, ◌^◌, ◌≡◌, refl, sym, ap, ◌∙◌, List, [], ◌∷◌, ◌++◌, some, arith, length, All,
  append-nil, append_assoc,
}
use mathlib.Core.Path.{ap₂}
use zltool_kit.Kit.Words.{u16}
use zltool_kit.Kcp.Header.{Header, cmd_ack}
use zltool_kit.Kcp.Header.RoundTrip.{header_bytes}
use zltool_kit.Kcp.Packet.{Packet, Uninit, new_packet, store_to_data}
use zltool_kit.Kcp.Packet.RoundTrip.{IsWired, wire}
use zltool_kit.Kcp.State.{Kcp}
use zltool_kit.Kcp.Receive.{get_rcv_wnd_unused}
use zltool_kit.Kcp.Flush.{ack_packet, send_acks, send_ack_list, send_packet}
use zltool_kit.Kcp.Flush.Pool.{IsPooled, Sends, outgoing, send_packet_lem}

-- An entry of the list: number and time stamp.
abbrev pub IsAck : ℕ × ℕ → Type 0
IsAck a = (a.0 < 2 ^ 32) × (a.1 < 2 ^ 32)

-- What an acknowledgement says.
abbrev pub ack_header : Kcp → ℕ × ℕ → Header
ack_header k a = record {
  conv = k.conv;
  cmd = cmd_ack;
  frg = 0;
  wnd = u16 (get_rcv_wnd_unused k);
  ts = a.1;
  sn = a.0;
  una = k.rcv_nxt;
  len = 0;
}

-- What an acknowledgement needs of the state.
pub record IsAcking (k : Kcp) : Type 0 where
  pub pooled : IsPooled k
  pub room : 24 ≤ k.settings.mtu
  pub conv_in : k.conv < 2 ^ 32
  pub next_in : k.rcv_nxt < 2 ^ 32

ack_packet-IsWired :
    (u : Uninit) (a : ℕ × ℕ) (k : Kcp)
    → ((n : ℕ) → length (u.bytes n) ≡ n)
    → IsAcking k
    → IsAck a
    → IsWired (ack_packet u a k)
unfolding ack_packet new_packet
ack_packet-IsWired u a k sized v h = record {
  wide = record {
    conv_in = v.conv_in;
    cmd_in = omega arith;
    frg_in = omega arith;
    wnd_in = omega arith;
    ts_in = h.1;
    sn_in = h.0;
    una_in = v.next_in;
    len_in = omega arith;
  };
  sized_as = omega arith;
  covers = omega (arith, sized (0 + 24 + 1));
  short = omega arith;
}

wire-ack_packet :
    (u : Uninit) (a : ℕ × ℕ) (k : Kcp) → wire (ack_packet u a k) ≡ header_bytes (ack_header k a)
unfolding ack_packet new_packet
wire-ack_packet u a k = append-nil (header_bytes (ack_header k a))

Sends-IsAcking : {k l : Kcp} {bytes : List ℕ} → IsAcking k → Sends k l bytes → IsAcking l
Sends-IsAcking v s = record {
  pooled = s.pooled;
  room = omega (arith, ap (λ (x : Kcp). x.settings.mtu) s.same, v.room);
  conv_in = omega (arith, ap (λ (x : Kcp). x.conv) s.same, v.conv_in);
  next_in = omega (arith, ap (λ (x : Kcp). x.rcv_nxt) s.same, v.next_in);
}

Sends-ack_header :
    {k l : Kcp} {bytes : List ℕ} → Sends k l bytes → (a : ℕ × ℕ) → ack_header l a ≡ ack_header k a
unfolding get_rcv_wnd_unused
Sends-ack_header s a = ap (λ (x : Kcp). ack_header x a) s.same

-- The bytes of the acknowledgements for a list of entries.
abbrev pub ack_bytes : Kcp → List (ℕ × ℕ) → List ℕ
ack_bytes k [] = []
ack_bytes k (a ∷ acks) = header_bytes (ack_header k a) ++ ack_bytes k acks

Sends-ack_bytes :
    {k l : Kcp} {bytes : List ℕ}
    → Sends k l bytes
    → (acks : List (ℕ × ℕ)) → ack_bytes l acks ≡ ack_bytes k acks
Sends-ack_bytes s [] = refl
Sends-ack_bytes s (a ∷ acks) =
    ap₂ ◌++◌ (ap header_bytes (Sends-ack_header s a)) (Sends-ack_bytes s acks)

-- What the loop leaves behind.
pub record Acknowledges (k : Kcp) (acks : List (ℕ × ℕ)) (l : Kcp) : Type 0 where
  pub pooled : IsPooled l
  pub sent : outgoing l ≡ outgoing k ++ ack_bytes k acks
  pub same : l ≡ record k { acklist = []; events = l.events; buffer_pool = l.buffer_pool }

send_acks_step :
    (u : Uninit) (a : ℕ × ℕ) (acks : List (ℕ × ℕ)) (k l : Kcp) (q : Packet)
    → send_packet (ack_packet u a k) k ≡ some (q, l)
    → send_acks u (a ∷ acks) k ≡ send_acks u acks l
unfolding send_acks
send_acks_step u a acks k l q e = rw (e, send_acks)

send_acks-Acknowledges :
    (u : Uninit) (acks : List (ℕ × ℕ)) (k : Kcp)
    → ((n : ℕ) → length (u.bytes n) ≡ n)
    → IsAcking k
    → All IsAck acks
    → (l : Kcp) × (send_acks u acks k ≡ some l) × Acknowledges k acks l
send_acks-Acknowledges u [] k sized v h = (
  record k { acklist = [] },
  unfold send_acks in refl,
  record {
    pooled = record {
      within = v.pooled.within;
      room = v.pooled.room;
      whole_block = v.pooled.whole_block;
      bounded = v.pooled.bounded;
    };
    sent = sym (append-nil (outgoing k));
    same = refl;
  },
)
send_acks-Acknowledges u (a ∷ acks) k sized v h =
    let wired = ack_packet-IsWired u a k sized v h.0 in
    let (l, e, s) =
      send_packet_lem (ack_packet u a k) k v.pooled wired
        (unfold ack_packet new_packet in omega (arith, v.room)) in
    let (m, f, t) = send_acks-Acknowledges u acks l sized (Sends-IsAcking v s) h.1 in
    (
      m,
      send_acks_step u a acks k l (store_to_data (ack_packet u a k)) e ∙ f,
      record {
        pooled = t.pooled;
        sent =
            t.sent
            ∙ ap₂ ◌++◌ (s.sent ∙ ap (◌++◌ (outgoing k)) (wire-ack_packet u a k))
                (Sends-ack_bytes s acks)
            ∙ append_assoc (outgoing k) (header_bytes (ack_header k a)) (ack_bytes k acks);
        same =
            t.same
            ∙ ap
                (λ (x : Kcp). record x {
                  acklist = [];
                  events = m.events;
                  buffer_pool = m.buffer_pool;
                })
                s.same;
      },
    )

-- With a well-formed pool, room for a header in `_mtu`, and numbers within their types, `sendAckList`
-- completes: behind what was sent before it sends, for each entry of the list in order,
-- a header with the entry's number and time stamp, the session number, the next expected number and
-- the free window; it empties the list, keeps datagrams to `_mtu`, and changes nothing else.
pub send_ack_list_lem :
    (u : Uninit) (k : Kcp)
    → ((n : ℕ) → length (u.bytes n) ≡ n)
    → IsAcking k
    → All IsAck k.acklist
    → (l : Kcp) × (send_ack_list u k ≡ some l) × Acknowledges k k.acklist l
unfolding send_ack_list
send_ack_list_lem u k sized v h = send_acks-Acknowledges u k.acklist k sized v h
