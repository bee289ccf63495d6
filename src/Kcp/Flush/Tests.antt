-- ===== src/Kcp/Flush/Tests.antt =====
-- What goes out, on concrete states.
use zltool_kit.Kit.{◌≡◌, ◌∷◌, [], some, arith, refl}
use zltool_kit.Kcp.Packet.{Packet, store_to_data}
use zltool_kit.Kcp.Packet.RoundTrip.{IsWired, wire}
use zltool_kit.Kcp.State.{Kcp}
use zltool_kit.Kcp.Fixtures.{data_packet, idle}
use zltool_kit.Kcp.Flush.{send_packet}
use zltool_kit.Kcp.Flush.Pool.{IsPooled, Sends, send_packet_lem}
use zltool_kit.Kcp.Flush.Acks.{IsAcking}

idle-IsPooled : IsPooled idle
idle-IsPooled = record {
  within = omega arith;
  room = omega arith;
  whole_block = refl;
  bounded = tt;
}

abbrev sample : Packet
sample = data_packet 3 0 (10 ∷ 11 ∷ [])

sample-IsWired : IsWired sample
sample-IsWired = record {
  wide = omega arith;
  sized_as = refl;
  covers = omega arith;
  short = omega arith;
}

send_packet_lem_example :
    (l : Kcp) × (send_packet sample idle ≡ some (store_to_data sample, l))
    × Sends idle l (wire sample)
send_packet_lem_example = send_packet_lem sample idle idle-IsPooled sample-IsWired (omega arith)

abbrev owing : Kcp
owing = record idle { acklist = (3, 1000) ∷ (4, 1001) ∷ [] }

owing-IsAcking : IsAcking owing
owing-IsAcking = record {
  pooled = record { within = omega arith; room = omega arith; whole_block = refl; bounded = tt };
  room = omega arith;
  conv_in = omega arith;
  next_in = omega arith;
}

abbrev sent_once : Packet
sent_once = record sample { xmit = 1; resendts = 500 }
