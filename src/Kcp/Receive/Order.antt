-- ===== src/Kcp/Receive/Order.antt =====
-- The order of `_rcv_buf`, and `_rcv_buf` as a map from numbers to packets.
use zltool_kit.Kit.{
  ℕ, suc, ◌≤◌, ◌<◌, ◌≡◌, refl, List, [], ◌∷◌, Option, none, some, arith, ◌==◌, if◌then◌else◌,
}
use zltool_kit.Kcp.Packet.{Packet}
use zltool_kit.Kcp.Receive.{insert_packet}

-- The numbers rise strictly along the list, from `lo` on.
abbrev pub Ascending : ℕ → List Packet → Type 0
Ascending lo [] = Unit
Ascending lo (p ∷ ps) = (lo ≤ p.header.sn) × Ascending (suc p.header.sn) ps

-- The packet with a number: the abstract view of a buffer.
abbrev pub find_sn : ℕ → List Packet → Option Packet
find_sn sn [] = none
find_sn sn (p ∷ ps) = if p.header.sn == sn then some p else find_sn sn ps

abbrev pub or_else : Option Packet → Packet → Option Packet
or_else none p = some p
or_else (some q) p = some q

pub Ascending-mono : (lo hi : ℕ) (ps : List Packet) → lo ≤ hi → Ascending hi ps → Ascending lo ps
Ascending-mono lo hi [] h a = tt
Ascending-mono lo hi (p ∷ ps) h a = (omega arith, a.1)

pub insert_packet-Ascending :
    (p : Packet) (lo : ℕ) (ps : List Packet)
    → lo ≤ p.header.sn
    → Ascending lo ps
    → Ascending lo (insert_packet p ps)
unfolding insert_packet
insert_packet-Ascending p lo [] h a = (h, tt)
insert_packet-Ascending p lo (q ∷ ps) h a =
    ground (arith, insert_packet-Ascending p (suc q.header.sn) ps)

pub find_sn_below :
    (sn lo : ℕ) (ps : List Packet) → sn < lo → Ascending lo ps → find_sn sn ps ≡ none
find_sn_below sn lo [] h a = refl
find_sn_below sn lo (p ∷ ps) h a = ground (arith, find_sn_below sn (suc p.header.sn) ps)

-- Inserting adds the packet under its number, and leaves a packet that has the number already.
pub find_sn-insert_packet :
    (p : Packet) (sn lo : ℕ) (ps : List Packet)
    → Ascending lo ps
    → find_sn sn (insert_packet p ps)
      ≡ (if p.header.sn == sn then or_else (find_sn sn ps) p else find_sn sn ps)
unfolding insert_packet
find_sn-insert_packet p sn lo [] a = ground arith
find_sn-insert_packet p sn lo (q ∷ ps) a =
    ground (
      arith,
      find_sn-insert_packet p sn (suc q.header.sn) ps,
      find_sn_below sn (suc q.header.sn) ps,
    )
