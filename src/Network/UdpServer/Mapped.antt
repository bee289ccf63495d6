-- ===== src/Network/UdpServer/Mapped.antt =====
-- What each step does to the map of sessions and to the tasks.
use zltool_kit.Kit.{
  ℕ, ◌<◌, ◌≡◌, refl, sym, ap, ◌∙◌, Bool, true, false, List, [], ◌∷◌, ◌++◌, ◌==◌, Option, none, some,
  length, All, All-append, All-mono, inl, inr, Bool-cases, arith, pick_true, pick_false,
  length-append,
}
use zltool_kit.Kit.Maps.{
  Entries, IsUnique, find, find-none, All-emplace, IsUnique-emplace, some-inj,
}
use mathlib.Core.Path.{subst}
use zltool_kit.Network.UdpServer.{
  Datagram, Helper, Task, creates, receives, receives_weak, Received, Server, helper_of, post,
  emit_session_recv, async_recv, new_helper, find_or_make, helper_creator, dispatch, create_session,
  read_found, on_read_l, recv_if_locked, on_peer_read, run_creates, run_task,
}
use zltool_kit.Network.UdpServer.Keeps.{
  Helpers, at, IsPeer, Keeps, at_last, Keeps-append, IsPeer-Keeps, IsMine, IsTask, IsMine-Keeps,
  IsTask-Keeps,
}

-- A peer has one session, which is its own.
abbrev pub IsMapped : Helpers → Entries → Type 0
IsMapped hs m = IsUnique m × All (λ e. IsPeer hs e.1 e.0) m

abbrev pub AreTasks : Helpers → List (ℕ × Task) → Type 0
AreTasks hs ts = All (λ x. IsTask hs x.0 x.1) ts

abbrev pub AreMine : Helpers → List Received → Type 0
AreMine hs rs = All (λ r. IsMine hs r.on r.helper r.what) rs

abbrev pub IsWell : Server → Type 0
IsWell s = IsMapped s.helpers s.sessions × AreTasks s.helpers s.tasks × AreMine s.helpers s.received

-- The helpers grow or are switched off.
pub IsWell-Keeps :
    (gs : Helpers) (s : Server) → Keeps s.helpers gs → IsWell s → IsWell (record s { helpers = gs })
IsWell-Keeps gs s k ((u, mapped), tasks, received) = (
  (
    u,
    All-mono (λ e. IsPeer s.helpers e.1 e.0) (λ e. IsPeer gs e.1 e.0)
        (λ e. IsPeer-Keeps s.helpers gs e.1 e.0 k) s.sessions mapped,
  ),
  All-mono (λ x. IsTask s.helpers x.0 x.1) (λ x. IsTask gs x.0 x.1)
      (λ x. IsTask-Keeps s.helpers gs x.0 x.1 k) s.tasks tasks,
  All-mono (λ r. IsMine s.helpers r.on r.helper r.what) (λ r. IsMine gs r.on r.helper r.what)
      (λ r. IsMine-Keeps s.helpers gs r.on r.helper r.what k) s.received received,
)

pub find-IsPeer :
    (hs : Helpers) (m : Entries) (peer h : ℕ)
    → find peer m ≡ some h
    → All (λ e. IsPeer hs e.1 e.0) m
    → IsPeer hs h peer
find-IsPeer hs [] peer h x v = absurd (ground (arith, x))
find-IsPeer hs ((k, i) ∷ m) peer h x v = elim (Bool-cases (k == peer)) [
  | inl same ↦
      let key : k ≡ peer = ground arith in
      let here = some-inj i h (sym (pick_true (some i) (find peer m) same) ∙ x) in
      subst (λ z. IsPeer hs z peer) here (subst (IsPeer hs i) key v.0)
  | inr other ↦ find-IsPeer hs m peer h (sym (pick_false (some i) (find peer m) other) ∙ x) v.1
]

post-IsWell :
    (p : ℕ) (t : Task) (s : Server) → IsTask s.helpers p t → IsWell s → IsWell (post p t s)
post-IsWell p t s x (mapped, tasks, received) = (
  mapped,
  All-append (λ y. IsTask s.helpers y.0 y.1) s.tasks ((p, t) ∷ []) tasks (x, tt),
  received,
)

emit-IsWell :
    (cur h : ℕ) (d : Datagram) (s : Server)
    → IsMine s.helpers cur h d
    → IsWell s
    → IsWell (emit_session_recv cur h d s)
unfolding emit_session_recv
emit-IsWell cur h d s x (mapped, tasks, received) = elim (Bool-cases (helper_of h s).enable) [
  | inl on ↦ subst IsWell (sym (pick_true _ _ on)) (
    mapped,
    tasks,
    All-append (λ r. IsMine s.helpers r.on r.helper r.what) s.received
        (record { on = cur; helper = h; what = d } ∷ []) received (x, tt),
  )
  | inr off ↦ subst IsWell (sym (pick_false _ _ off)) (mapped, tasks, received)
]

async-IsWell :
    (cur h : ℕ) (d : Datagram) (t : Task) (s : Server)
    → IsPeer s.helpers h d.from
    → (IsMine s.helpers (at s.helpers h).poller h d → IsTask s.helpers (at s.helpers h).poller t)
    → IsWell s
    → IsWell (async_recv cur h d t s)
unfolding async_recv
async-IsWell cur h d t s x f v = elim (Bool-cases ((helper_of h s).poller == cur)) [
  | inl here ↦
      let on : (at s.helpers h).poller ≡ cur = ground (arith, here) in
      subst IsWell (sym (pick_true _ _ here)) (emit-IsWell cur h d s (x, on) v)
  | inr there ↦
      subst IsWell (sym (pick_false _ _ there))
        (post-IsWell (at s.helpers h).poller t s (f (x, refl)) v)
]

new_helper-IsWell :
    (place p peer : ℕ) (s : Server)
    → find peer s.sessions ≡ none
    → IsWell s
    → IsWell (new_helper place p peer s)
      × IsPeer (new_helper place p peer s).helpers (length s.helpers) peer
unfolding new_helper
new_helper-IsWell place p peer s x v =
    let fresh : Helper = record { peer = peer; poller = p; enable = true } in
    let gs = s.helpers ++ (fresh ∷ []) in
    let (mapped, tasks, received) = IsWell-Keeps gs s (Keeps-append s.helpers (fresh ∷ [])) v in
    let last : IsPeer gs (length s.helpers) peer = (
      omega (arith, length-append s.helpers (fresh ∷ [])),
      ap (λ z. z.peer) (at_last s.helpers fresh),
    ) in
    (
      (
        (
          IsUnique-emplace place peer (length s.helpers) s.sessions (find-none s.sessions peer x)
              mapped.0,
          All-emplace (λ e. IsPeer gs e.1 e.0) place (peer, length s.helpers) s.sessions last
              mapped.1,
        ),
        tasks,
        received,
      ),
      last,
    )

find_or_make-IsWell :
    (place p peer : ℕ) (s : Server) (o : Option ℕ)
    → find peer s.sessions ≡ o
    → IsWell s
    → IsWell (find_or_make place p peer s o).0
      × IsPeer (find_or_make place p peer s o).0.helpers (find_or_make place p peer s o).1 peer
unfolding find_or_make
find_or_make-IsWell place p peer s none x v = new_helper-IsWell place p peer s x v
find_or_make-IsWell place p peer s (some h) x v =
    (v, find-IsPeer s.helpers s.sessions peer h x v.0.1)

pub creator-IsWell :
    (place p peer : ℕ) (s : Server)
    → IsWell s
    → IsWell (helper_creator place p peer s).0
      × IsPeer (helper_creator place p peer s).0.helpers (helper_creator place p peer s).1 peer
unfolding helper_creator
creator-IsWell place p peer s v = find_or_make-IsWell place p peer s (find peer s.sessions) refl v

dispatch-IsWell :
    (cur h : ℕ) (d : Datagram) (s : Server)
    → IsPeer s.helpers h d.from
    → IsWell s
    → IsWell (dispatch cur h d s)
unfolding dispatch
dispatch-IsWell cur h d s x v = async-IsWell cur h d (receives_weak h d) s x (λ m. m) v

create-IsWell :
    (place cur : ℕ) (d : Datagram) (choice : Option ℕ) (s : Server)
    → IsWell s
    → IsWell (create_session place cur d choice s)
unfolding create_session
create-IsWell place cur d none s v = v
create-IsWell place cur d (some p) s v = elim (Bool-cases (p == cur)) [
  | inl here ↦
      let (w, x) = creator-IsWell place p d.from s v in
      subst IsWell (sym (pick_true _ _ here)) (dispatch-IsWell cur _ d _ x w)
  | inr there ↦ subst IsWell (sym (pick_false _ _ there)) (post-IsWell p (creates d) s tt v)
]

pub late-IsWell :
    (place cur : ℕ) (d : Datagram) (choice : Option ℕ) (s : Server) (o : Option ℕ)
    → ((h : ℕ) → o ≡ some h → IsPeer s.helpers h d.from)
    → IsWell s
    → IsWell (read_found place cur d choice s o)
unfolding read_found
late-IsWell place cur d choice s none x v = create-IsWell place cur d choice s v
late-IsWell place cur d choice s (some h) x v = dispatch-IsWell cur h d s (x h refl) v

pub read-IsWell :
    (place cur : ℕ) (d : Datagram) (choice : Option ℕ) (s : Server)
    → IsWell s
    → IsWell (on_read_l place cur d choice s)
unfolding on_read_l
read-IsWell place cur d choice s v =
    late-IsWell place cur d choice s (find d.from s.sessions)
      (λ h x. find-IsPeer s.helpers s.sessions d.from h x v.0.1) v

locked-IsWell :
    (locked : Bool) (cur h : ℕ) (d : Datagram) (s : Server)
    → IsMine s.helpers cur h d
    → IsWell s
    → IsWell (recv_if_locked locked cur h d s)
unfolding recv_if_locked
locked-IsWell true cur h d s x v = emit-IsWell cur h d s x v
locked-IsWell false cur h d s x v = v

pub peer_read-IsWell :
    (locked : Bool) (place h : ℕ) (d : Datagram) (choice : Option ℕ) (s : Server)
    → h < length s.helpers
    → IsWell s
    → IsWell (on_peer_read locked place h d choice s)
unfolding on_peer_read
peer_read-IsWell locked place h d choice s b v =
    elim (Bool-cases ((helper_of h s).peer == d.from)) [
      | inl own ↦
          let same : (at s.helpers h).peer ≡ d.from = ground (arith, own) in
          subst IsWell (sym (pick_true _ _ own))
            (locked-IsWell locked (at s.helpers h).poller h d s ((b, same), refl) v)
      | inr other ↦
          subst IsWell (sym (pick_false _ _ other))
            (read-IsWell place (at s.helpers h).poller d choice s v)
    ]

pub run_task-IsWell :
    (alive locked : Bool) (place cur : ℕ) (t : Task) (s : Server)
    → IsTask s.helpers cur t
    → IsWell s
    → IsWell (run_task alive locked place cur t s)
unfolding run_task run_creates
run_task-IsWell true locked place cur (creates d) s x v =
    let (w, y) = creator-IsWell place cur d.from s v in async-IsWell cur _ d _ _ y (λ m. m) w
run_task-IsWell false locked place cur (creates d) s x v = v
run_task-IsWell alive locked place cur (receives h d) s x v = emit-IsWell cur h d s x v
run_task-IsWell alive locked place cur (receives_weak h d) s x v =
    locked-IsWell locked cur h d s x v
