-- ===== src/Kcp/Rtt/Tests.antt =====
-- The round-trip estimate on concrete samples.
use zltool_kit.Kit.{◌≡◌, refl}
use zltool_kit.Kcp.State.{Rtt}
use zltool_kit.Kcp.Rtt.{update_rtt}

abbrev measured : Rtt
measured = record { rttval = 20; srtt = 80; rx_rto = 200; minrto = 100 }

update_rtt_runs : (update_rtt 10 120 measured).rx_rto ≡ 185
unfolding update_rtt
update_rtt_runs = refl
