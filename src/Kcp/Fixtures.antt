-- ===== src/Kcp/Fixtures.antt =====
-- A small connection and packets for the tests.
use zltool_kit.Kit.{ℕ, ◌+◌, ◌≡◌, true, false, List, [], ◌++◌, length, replicate, length-replicate}
use zltool_kit.Kcp.Packet.{Packet, Uninit}
use zltool_kit.Kcp.State.{Kcp}

abbrev pub garbage : Uninit
garbage = record {
  conv = 1;
  wnd = 2;
  ts = 3;
  sn = 4;
  una = 5;
  resendts = 6;
  rto = 7;
  fastack = 8;
  xmit = 9;
  bytes = λ n. replicate n 205;
}

pub garbage_sized : (n : ℕ) → length (garbage.bytes n) ≡ n
garbage_sized n = length-replicate n 205

abbrev pub data_packet : ℕ → ℕ → List ℕ → Packet
data_packet sn frg bytes = record {
  header = record {
    conv = 7;
    cmd = 81;
    frg = frg;
    wnd = 128;
    ts = 1000;
    sn = sn;
    una = 0;
    len = length bytes;
  };
  raw = record {
    mem = replicate 24 0 ++ bytes;
    allocated = true;
    capacity = 24 + length bytes;
    size = 24 + length bytes;
  };
  resendts = 0;
  rto = 200;
  fastack = 0;
  xmit = 0;
}

-- A connection with an `_mtu` of 100 bytes that has sent and received nothing.
abbrev pub idle : Kcp
idle = record {
  conv_init = true;
  conv = 7;
  settings = record {
    fastack_conserve = false;
    mtu = 100;
    mss = 76;
    interval = 100;
    fastresend = 0;
    snd_wnd = 32;
    rcv_wnd = 128;
    delay_mode = 0;
    nocwnd = false;
    stream = false;
  };
  rtt = record { rttval = 0; srtt = 0; rx_rto = 200; minrto = 100 };
  window = record { rmt_wnd = 128; cwnd = 1; incr = 0; ssthresh = 2 };
  probing = record { probe = 0; ts_probe = 0; probe_wait = 0 };
  resent_count = 0;
  snd_una = 0;
  snd_nxt = 0;
  rcv_nxt = 0;
  snd_queue = [];
  rcv_queue = [];
  snd_buf = [];
  rcv_buf = [];
  acklist = [];
  buffer_pool = record { mem = replicate 100 0; allocated = true; capacity = 100; size = 0 };
  events = [];
}
