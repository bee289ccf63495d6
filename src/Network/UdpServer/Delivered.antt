-- ===== src/Network/UdpServer/Delivered.antt =====
-- Histories in which nothing fails.
use zltool_kit.Kit.{
  ℕ, zero, suc, ◌<◌, ◌≡◌, ◌≢◌, refl, sym, ap, Bool, true, false, List, [], ◌∷◌, ◌==◌, Option, none,
  some, length, get_elem?, All, All-append, inl, inr, Bool-cases, arith, pick_true, pick_false,
}
use zltool_kit.Kit.Maps.{find}
use mathlib.Core.Path.{subst}
use zltool_kit.Network.UdpServer.{
  Datagram, Task, creates, receives, receives_weak, Server, helper_of, emit_session_recv,
  async_recv, new_helper, find_or_make, helper_creator, dispatch, create_session, read_found,
  on_read_l, recv_if_locked, on_peer_read, run_creates, run_task, take_task, run_taken, run_poller,
  erase_peer, run_erasure, on_manager_session,
}
use zltool_kit.Network.UdpServer.Keeps.{IsPeer, Helpers, at, IsTask}
use zltool_kit.Network.UdpServer.Mapped.{IsWell, creator-IsWell, find-IsPeer}
use zltool_kit.Network.UdpServer.Sessions.{taken_task, history-IsWell}
use zltool_kit.Network.UdpServer.Conserve.{count, count_received, count_tasks, history-places}
use zltool_kit.Network.UdpServer.Histories.{
  History, starts, arrives, arrives_late, reads, runs, errs, erases, manages,
}

-- Nothing is dropped, and every session is on.
abbrev pub IsQuiet : Server → Type 0
IsQuiet s = (s.lost ≡ []) × All (λ x. x.enable ≡ true) s.helpers

enabled_at :
    (hs : Helpers) (h : ℕ) → All (λ x. x.enable ≡ true) hs → h < length hs → (at hs h).enable ≡ true
enabled_at [] h v b = absurd (omega (arith, b))
enabled_at (x ∷ hs) zero v b = v.0
enabled_at (x ∷ hs) (suc h) v b = enabled_at hs h v.1 (omega (arith, b))

emit-IsQuiet :
    (cur h : ℕ) (d : Datagram) (s : Server)
    → h < length s.helpers
    → IsQuiet s
    → IsQuiet (emit_session_recv cur h d s)
unfolding emit_session_recv
emit-IsQuiet cur h d s b v =
    subst IsQuiet (sym (pick_true _ _ (enabled_at s.helpers h v.1 b))) (v.0, v.1)

async-IsQuiet :
    (cur h : ℕ) (d : Datagram) (t : Task) (s : Server)
    → h < length s.helpers
    → IsQuiet s
    → IsQuiet (async_recv cur h d t s)
unfolding async_recv
async-IsQuiet cur h d t s b v = elim (Bool-cases ((helper_of h s).poller == cur)) [
  | inl here ↦ subst IsQuiet (sym (pick_true _ _ here)) (emit-IsQuiet cur h d s b v)
  | inr there ↦ subst IsQuiet (sym (pick_false _ _ there)) (v.0, v.1)
]

made-IsQuiet :
    (place p peer : ℕ) (s : Server) (o : Option ℕ)
    → IsQuiet s
    → IsQuiet (find_or_make place p peer s o).0
unfolding find_or_make new_helper
made-IsQuiet place p peer s none v = (
  v.0,
  All-append (λ x. x.enable ≡ true) s.helpers
      (record { peer = peer; poller = p; enable = true } ∷ []) v.1 (refl, tt),
)
made-IsQuiet place p peer s (some h) v = v

creator-IsQuiet :
    (place p peer : ℕ) (s : Server) → IsQuiet s → IsQuiet (helper_creator place p peer s).0
unfolding helper_creator
creator-IsQuiet place p peer s v = made-IsQuiet place p peer s (find peer s.sessions) v

create-IsQuiet :
    (place cur : ℕ) (d : Datagram) (choice : Option ℕ) (s : Server)
    → choice ≢ none
    → IsWell s
    → IsQuiet s
    → IsQuiet (create_session place cur d choice s)
unfolding create_session dispatch
create-IsQuiet place cur d none s c w v = absurd (c refl)
create-IsQuiet place cur d (some p) s c w v = elim (Bool-cases (p == cur)) [
  | inl here ↦
      let (w', x) = creator-IsWell place p d.from s w in
      subst IsQuiet (sym (pick_true _ _ here))
        (async-IsQuiet cur _ d _ _ x.0 (creator-IsQuiet place p d.from s v))
  | inr there ↦ subst IsQuiet (sym (pick_false _ _ there)) (v.0, v.1)
]

late-IsQuiet :
    (place cur : ℕ) (d : Datagram) (choice : Option ℕ) (s : Server) (o : Option ℕ)
    → choice ≢ none
    → ((h : ℕ) → o ≡ some h → IsPeer s.helpers h d.from)
    → IsWell s
    → IsQuiet s
    → IsQuiet (read_found place cur d choice s o)
unfolding read_found dispatch
late-IsQuiet place cur d choice s none c x w v = create-IsQuiet place cur d choice s c w v
late-IsQuiet place cur d choice s (some h) c x w v =
    async-IsQuiet cur h d (receives_weak h d) s (x h refl).0 v

read-IsQuiet :
    (place cur : ℕ) (d : Datagram) (choice : Option ℕ) (s : Server)
    → choice ≢ none
    → IsWell s
    → IsQuiet s
    → IsQuiet (on_read_l place cur d choice s)
unfolding on_read_l
read-IsQuiet place cur d choice s c w v =
    late-IsQuiet place cur d choice s (find d.from s.sessions) c
      (λ h x. find-IsPeer s.helpers s.sessions d.from h x w.0.1) w v

locked-IsQuiet :
    (locked : Bool) (cur h : ℕ) (d : Datagram) (s : Server)
    → locked ≡ true
    → h < length s.helpers
    → IsQuiet s
    → IsQuiet (recv_if_locked locked cur h d s)
unfolding recv_if_locked
locked-IsQuiet true cur h d s l b v = emit-IsQuiet cur h d s b v
locked-IsQuiet false cur h d s l b v = absurd (ground (arith, l))

peer_read-IsQuiet :
    (locked : Bool) (place h : ℕ) (d : Datagram) (choice : Option ℕ) (s : Server)
    → choice ≢ none
    → locked ≡ true
    → h < length s.helpers
    → IsWell s
    → IsQuiet s
    → IsQuiet (on_peer_read locked place h d choice s)
unfolding on_peer_read
peer_read-IsQuiet locked place h d choice s c l b w v =
    elim (Bool-cases ((helper_of h s).peer == d.from)) [
      | inl own ↦
          subst IsQuiet (sym (pick_true _ _ own))
            (locked-IsQuiet locked (helper_of h s).poller h d s l b v)
      | inr other ↦
          subst IsQuiet (sym (pick_false _ _ other))
            (read-IsQuiet place (helper_of h s).poller d choice s c w v)
    ]

run_task-IsQuiet :
    (alive locked : Bool) (place cur : ℕ) (t : Task) (s : Server)
    → alive ≡ true
    → locked ≡ true
    → IsTask s.helpers cur t
    → IsWell s
    → IsQuiet s
    → IsQuiet (run_task alive locked place cur t s)
unfolding run_task run_creates
run_task-IsQuiet true locked place cur (creates d) s a l x w v =
    let (w', y) = creator-IsWell place cur d.from s w in
    async-IsQuiet cur _ d _ _ y.0 (creator-IsQuiet place cur d.from s v)
run_task-IsQuiet false locked place cur (creates d) s a l x w v = absurd (ground (arith, a))
run_task-IsQuiet alive locked place cur (receives h d) s a l x w v = emit-IsQuiet cur h d s x.0.0 v
run_task-IsQuiet alive locked place cur (receives_weak h d) s a l x w v =
    locked-IsQuiet locked cur h d s l x.0.0 v

run_taken-IsQuiet :
    (alive locked : Bool) (place cur : ℕ) (s : Server) (o : Option (Task × List (ℕ × Task)))
    → take_task cur s.tasks ≡ o
    → alive ≡ true
    → locked ≡ true
    → IsWell s
    → IsQuiet s
    → IsQuiet (run_taken alive locked place cur s o)
unfolding run_taken
run_taken-IsQuiet alive locked place cur s none x a l w v = v
run_taken-IsQuiet alive locked place cur s (some (t, rest)) x a l (mapped, tasks, received) v =
    let (p, q) = taken_task (IsTask s.helpers) cur s.tasks (t, rest) x tasks in
    run_task-IsQuiet alive locked place cur t (record s { tasks = rest }) a l p
      (mapped, q, received) v

erase_peer-IsQuiet : (k : ℕ) (s : Server) (o : Option ℕ) → IsQuiet s → IsQuiet (erase_peer k s o)
unfolding erase_peer
erase_peer-IsQuiet k s none v = v
erase_peer-IsQuiet k s (some peer) v = v

history-IsQuiet : (ds : List Datagram) {s : Server} → History true ds s → IsQuiet s
unfolding run_poller run_erasure on_manager_session
history-IsQuiet ds starts = (refl, tt)
history-IsQuiet ds (arrives es s place cur d choice c x) =
    read-IsQuiet place cur d choice s (c refl) (history-IsWell true es x) (history-IsQuiet es x)
history-IsQuiet ds (arrives_late es s place cur d choice o c p x) =
    late-IsQuiet place cur d choice s o (c refl) p (history-IsWell true es x) (history-IsQuiet es x)
history-IsQuiet ds (reads es s locked place h d choice c b x) =
    peer_read-IsQuiet locked place h d choice s (c refl).0 (c refl).1 b (history-IsWell true es x)
      (history-IsQuiet es x)
history-IsQuiet ds (runs es s alive locked place cur c x) =
    run_taken-IsQuiet alive locked place cur s (take_task cur s.tasks) refl (c refl).0 (c refl).1
      (history-IsWell true es x) (history-IsQuiet es x)
history-IsQuiet ds (errs es s alive locked h c b x) = absurd (ground (arith, c))
history-IsQuiet ds (erases es s k x) =
    erase_peer-IsQuiet k s (get_elem? s.erasures k) (history-IsQuiet es x)
history-IsQuiet ds (manages es s cur copy x) = history-IsQuiet es x

-- If every socket that was asked for was made, the server and the sessions were there whenever a task looked for
-- them, and no session had an error, then, when no task waits, no datagram has been dropped and each was
-- received by a session as often as it arrived.
pub delivered_lem :
    (d : Datagram) (ds : List Datagram) {s : Server}
    → History true ds s
    → s.tasks ≡ []
    → (s.lost ≡ []) × (count_received d s.received ≡ count d ds)
delivered_lem d ds {s = s} x done =
    let v = history-IsQuiet ds x in
    (v.0, omega (arith, history-places true d ds x, ap (count d) v.0, ap (count_tasks d) done))
