-- ===== src/Kcp/Packet/Tests.antt =====
-- Headers and packets on the wire, on concrete values.
use zltool_kit.Kit.{ℕ, List, ◌∷◌, [], ◌++◌, arith, refl, replicate}
use zltool_kit.Kcp.Packet.{Packet}
use zltool_kit.Kcp.Packet.RoundTrip.{IsWired, wire, Parses, parse-wire}
use zltool_kit.Kcp.Fixtures.{garbage, garbage_sized, data_packet}

abbrev sample : Packet
sample = data_packet 3 0 (10 ∷ 11 ∷ [])

abbrev room : List ℕ
room = replicate 26 9

sample-IsWired : IsWired sample
sample-IsWired = record {
  wide = omega arith;
  sized_as = refl;
  covers = omega arith;
  short = omega arith;
}

parse-wire_example : (q : Packet) × Parses garbage sample (wire sample ++ 1 ∷ 2 ∷ []) q
parse-wire_example = parse-wire garbage sample (1 ∷ 2 ∷ []) garbage_sized sample-IsWired
