-- ===== src/Kcp/Congestion/Tests.antt =====
-- The congestion window on concrete states.
use zltool_kit.Kcp.State.{Window}

abbrev narrow : Window
narrow = record { rmt_wnd = 128; cwnd = 3; incr = 4128; ssthresh = 16 }
