-- ===== src/Kcp/State.antt =====
-- The state of a `KcpTransport`, its configuration by the setters, and what it hands to its
-- callbacks. Time is an argument of the operations that read the clock. An `int` is its 32-bit
-- pattern. The timer, the poller and the mutex-free hand-over to its thread are not part of the
-- state: an operation here is the body that runs on the poller's thread.
use zltool_kit.Kit.{
  ℕ, Bool, false, not, ◌&&◌, ◌||◌, List, [], ◌∷◌, ◌++◌, Option, none, some, ltb, leb, ◌==◌,
  if◌then◌else◌,
}
use zltool_kit.Kit.Words.{sub32, is_neg32}
use zltool_kit.Buffer.{BufferRaw, create}
use zltool_kit.Kcp.Header.{header_size}
use zltool_kit.Kcp.Packet.{Packet, Uninit}

-- `DelayMode`.
abbrev pub delay_mode_normal : ℕ
delay_mode_normal = 0

abbrev pub delay_mode_fast : ℕ
delay_mode_fast = 1

abbrev pub delay_mode_no_delay : ℕ
delay_mode_no_delay = 2

abbrev pub ikcp_ask_send : ℕ
ikcp_ask_send = 1

abbrev pub ikcp_ask_tell : ℕ
ikcp_ask_tell = 2

abbrev pub ikcp_rto_ndl : ℕ
ikcp_rto_ndl = 30

abbrev pub ikcp_rto_min : ℕ
ikcp_rto_min = 100

abbrev pub ikcp_rto_max : ℕ
ikcp_rto_max = 60000

abbrev pub ikcp_wnd_rcv : ℕ
ikcp_wnd_rcv = 128

abbrev pub ikcp_mtu_def : ℕ
ikcp_mtu_def = 1400

abbrev pub ikcp_thresh_min : ℕ
ikcp_thresh_min = 2

abbrev pub ikcp_probe_init : ℕ
ikcp_probe_init = 7000

abbrev pub ikcp_probe_limit : ℕ
ikcp_probe_limit = 120000

abbrev pub fastlimit : ℕ
fastlimit = 5

abbrev pub dead_link : ℕ
dead_link = 20

-- What the callbacks are given, in order: a datagram, a message, the count of an over-sent segment.
pub data Event : Type 0 where
  wrote : List ℕ → Event
  delivered : List ℕ → Event
  dead : ℕ → Event

-- The round-trip estimate; the members are `int32_t`.
pub record Rtt : Type 0 where
  pub rttval : ℕ
  pub srtt : ℕ
  pub rx_rto : ℕ
  pub minrto : ℕ

-- Members that the setters write and the protocol only reads.
pub record Settings : Type 0 where
  pub fastack_conserve : Bool
  pub mtu : ℕ
  pub mss : ℕ
  pub interval : ℕ
  pub fastresend : ℕ
  pub snd_wnd : ℕ
  pub rcv_wnd : ℕ
  pub delay_mode : ℕ
  pub nocwnd : Bool
  pub stream : Bool

-- The congestion window.
pub record Window : Type 0 where
  pub rmt_wnd : ℕ
  pub cwnd : ℕ
  pub incr : ℕ
  pub ssthresh : ℕ

pub record Probing : Type 0 where
  pub probe : ℕ
  pub ts_probe : ℕ
  pub probe_wait : ℕ

pub record Kcp : Type 0 where
  pub conv_init : Bool
  pub conv : ℕ
  pub settings : Settings
  pub rtt : Rtt
  pub window : Window
  pub probing : Probing
  pub resent_count : ℕ
  pub snd_una : ℕ
  pub snd_nxt : ℕ
  pub rcv_nxt : ℕ
  pub snd_queue : List Packet
  pub rcv_queue : List Packet
  pub snd_buf : List Packet
  pub rcv_buf : List Packet
  pub acklist : List (ℕ × ℕ)
  pub buffer_pool : BufferRaw
  pub events : List Event

-- The constructor. A client takes a random `conv`; a server leaves it unwritten.
unfoldable pub initial : Uninit → Bool → ℕ → Kcp
unfolding create
initial u server_mode random = record {
  conv_init = not server_mode;
  conv = if server_mode then u.conv else random;
  settings = record {
    fastack_conserve = false;
    mtu = ikcp_mtu_def;
    mss = 1376;
    interval = 100;
    fastresend = 0;
    snd_wnd = 32;
    rcv_wnd = ikcp_wnd_rcv;
    delay_mode = delay_mode_normal;
    nocwnd = false;
    stream = false;
  };
  rtt = record { rttval = 0; srtt = 0; rx_rto = 200; minrto = ikcp_rto_min };
  window = record { rmt_wnd = ikcp_wnd_rcv; cwnd = 1; incr = 0; ssthresh = 2 };
  probing = record { probe = 0; ts_probe = 0; probe_wait = 0 };
  resent_count = 0;
  snd_una = 0;
  snd_nxt = 0;
  rcv_nxt = 0;
  snd_queue = [];
  rcv_queue = [];
  snd_buf = [];
  rcv_buf = [];
  acklist = [];
  buffer_pool = create u.bytes ikcp_mtu_def;
  events = [];
}

abbrev pub emit : Event → Kcp → Kcp
emit e k = record k { events = k.events ++ e ∷ [] }

-- `_imin_`, `_imax_`, `_ibound_`.
abbrev pub imin : ℕ → ℕ → ℕ
imin a b = if leb a b then a else b

abbrev pub imax : ℕ → ℕ → ℕ
imax a b = if leb b a then a else b

abbrev pub ibound : ℕ → ℕ → ℕ → ℕ
ibound lower middle upper = imin (imax lower middle) upper

-- The setters.
-- `none` is the exception `runtime_error`.
unfoldable pub set_mtu : ℕ → Kcp → Option Kcp
set_mtu mtu k =
    if is_neg32 mtu || (ltb mtu 50 || ltb mtu header_size)
    then none
    else some
        (record k { settings = record (k.settings) { mtu = mtu; mss = sub32 mtu header_size } })

unfoldable pub set_interval : ℕ → Kcp → Kcp
set_interval n k = record k { settings = record (k.settings) { interval = ibound 10 n 5000 } }

unfoldable pub set_rx_minrto : ℕ → Kcp → Kcp
set_rx_minrto n k = record k { rtt = record (k.rtt) { minrto = n } }

unfoldable pub set_delay_mode : ℕ → Kcp → Kcp
set_delay_mode m k = if ltb delay_mode_no_delay m then k else record k {
  settings = record (k.settings) { delay_mode = m };
  rtt = record (k.rtt) { minrto = if m == delay_mode_normal then ikcp_rto_min else ikcp_rto_ndl };
}

unfoldable pub set_fastack_conserve : Bool → Kcp → Kcp
set_fastack_conserve flag k = record k {
  settings = record (k.settings) { fastack_conserve = flag };
}

unfoldable pub set_no_cwnd : Bool → Kcp → Kcp
set_no_cwnd flag k = record k { settings = record (k.settings) { nocwnd = flag } }

unfoldable pub set_stream_mode : Bool → Kcp → Kcp
set_stream_mode flag k = record k { settings = record (k.settings) { stream = flag } }

unfoldable pub set_fast_resend : ℕ → Kcp → Kcp
set_fast_resend n k = record k { settings = record (k.settings) { fastresend = n } }

abbrev is_positive : ℕ → Bool
is_positive n = ltb 0 n && not (is_neg32 n)

unfoldable pub set_wnd_size : ℕ → ℕ → Kcp → Kcp
set_wnd_size sndwnd rcvwnd k = record k {
  settings = record (k.settings) {
    snd_wnd = if is_positive sndwnd then sndwnd else k.settings.snd_wnd;
    rcv_wnd = if is_positive rcvwnd then imax rcvwnd ikcp_wnd_rcv else k.settings.rcv_wnd;
  };
}
