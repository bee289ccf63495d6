-- ===== src/Network/UdpServer/Sessions.antt =====
-- One session for each peer, and each datagram at its sender's session.
use zltool_kit.Kit.{
  ℕ, ◌≡◌, refl, sym, ap, ◌∙◌, Bool, true, false, List, [], ◌∷◌, ◌==◌, Option, none, some, get_elem?,
  set, All, inl, inr, Bool-cases, Option-cases, arith, pick_true, pick_false,
}
use zltool_kit.Kit.Maps.{All-erase, IsUnique-erase}
use mathlib.Core.Path.{subst}
use zltool_kit.Network.UdpServer.{
  Datagram, Task, Server, helper_of, with_task, take_task, run_taken, run_poller, on_err,
  erase_peer, run_erasure, on_manager_session,
}
use zltool_kit.Network.UdpServer.Keeps.{IsPeer, Keeps-set, IsTask}
use zltool_kit.Network.UdpServer.Mapped.{
  IsWell, IsWell-Keeps, late-IsWell, read-IsWell, peer_read-IsWell, run_task-IsWell,
}
use zltool_kit.Network.UdpServer.Histories.{
  History, starts, arrives, arrives_late, reads, runs, errs, erases, manages,
}

tasks-inj : (x y : Task × List (ℕ × Task)) → some x ≡ some y → x ≡ y
tasks-inj x y h = ap (λ o. elim o [ none ↦ x | some z ↦ z ]) h

-- What was taken was waiting.
abbrev pub WasTask : (ℕ → Task → Type 0) → ℕ → Task × List (ℕ × Task) → Type 0
WasTask P p x = P p x.0 × All (λ y. P y.0 y.1) x.1

pub taken_task :
    (P : ℕ → Task → Type 0) (p : ℕ) (ts : List (ℕ × Task)) (x : Task × List (ℕ × Task))
    → take_task p ts ≡ some x
    → All (λ y. P y.0 y.1) ts
    → WasTask P p x
taken_task P p [] x h v = absurd (ground (arith, h))
taken_task P p ((q, t) ∷ ts) x h v = elim (Bool-cases (q == p)) [
  | inl same ↦
      let key : q ≡ p = ground arith in
      let e = tasks-inj (t, ts) x (sym (pick_true _ _ same) ∙ h) in
      subst (WasTask P p) e (subst (λ z. P z t) key v.0, v.1)
  | inr other ↦
      let e = sym (pick_false _ _ other) ∙ h in
      elim (Option-cases (take_task p ts)) [
        | inl nothing ↦ absurd (ground (arith, sym (ap (with_task (q, t)) nothing) ∙ e))
        | inr (y, later) ↦
            let f = tasks-inj (y.0, (q, t) ∷ y.1) x (sym (ap (with_task (q, t)) later) ∙ e) in
            let (a, b) = taken_task P p ts y later v.1 in subst (WasTask P p) f (a, (v.0, b))
      ]
]

run_taken-IsWell :
    (alive locked : Bool) (place cur : ℕ) (s : Server) (o : Option (Task × List (ℕ × Task)))
    → take_task cur s.tasks ≡ o
    → IsWell s
    → IsWell (run_taken alive locked place cur s o)
unfolding run_taken
run_taken-IsWell alive locked place cur s none x v = v
run_taken-IsWell alive locked place cur s (some (t, rest)) x (mapped, tasks, received) =
    let (a, b) = taken_task (IsTask s.helpers) cur s.tasks (t, rest) x tasks in
    run_task-IsWell alive locked place cur t (record s { tasks = rest }) a (mapped, b, received)

on_err-IsWell :
    (alive locked : Bool) (h : ℕ) (s : Server) → IsWell s → IsWell (on_err alive locked h s)
unfolding on_err
on_err-IsWell alive true h s v =
    let off = record (helper_of h s) { enable = false } in
    IsWell-Keeps (set s.helpers h off) s (Keeps-set s.helpers h off refl refl) v
on_err-IsWell alive false h s v = v

erase_peer-IsWell : (k : ℕ) (s : Server) (o : Option ℕ) → IsWell s → IsWell (erase_peer k s o)
unfolding erase_peer
erase_peer-IsWell k s none v = v
erase_peer-IsWell k s (some peer) (mapped, tasks, received) = (
  (
    IsUnique-erase peer s.sessions mapped.0,
    All-erase (λ e. IsPeer s.helpers e.1 e.0) peer s.sessions mapped.1,
  ),
  tasks,
  received,
)

-- Over every interleaving of datagrams, on any poller, of tasks, errors and delayed erasures: a peer has at most
-- one entry in the shared map, and it is a session made for that peer; each datagram that reached a
-- session came from the session's own peer, and was handed over on the poller that owns its socket.
pub history-IsWell : (calm : Bool) (ds : List Datagram) {s : Server} → History calm ds s → IsWell s
unfolding run_poller run_erasure on_manager_session
history-IsWell calm ds starts = ((tt, tt), tt, tt)
history-IsWell calm ds (arrives es s place cur d choice c x) =
    read-IsWell place cur d choice s (history-IsWell calm es x)
history-IsWell calm ds (arrives_late es s place cur d choice o c p x) =
    late-IsWell place cur d choice s o p (history-IsWell calm es x)
history-IsWell calm ds (reads es s locked place h d choice c b x) =
    peer_read-IsWell locked place h d choice s b (history-IsWell calm es x)
history-IsWell calm ds (runs es s alive locked place cur c x) =
    run_taken-IsWell alive locked place cur s (take_task cur s.tasks) refl
      (history-IsWell calm es x)
history-IsWell calm ds (errs es s alive locked h c b x) =
    on_err-IsWell alive locked h s (history-IsWell calm es x)
history-IsWell calm ds (erases es s k x) =
    erase_peer-IsWell k s (get_elem? s.erasures k) (history-IsWell calm es x)
history-IsWell calm ds (manages es s cur copy x) = history-IsWell calm es x
