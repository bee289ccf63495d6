-- ===== src/Network/UdpServer/Conserve.antt =====
-- Where a datagram is.
use zltool_kit.Kit.{
  ℕ, ◌+◌, ◌≡◌, refl, sym, ◌∙◌, Bool, true, false, ◌&&◌, List, [], ◌∷◌, ◌++◌, ◌==◌, if◌then◌else◌,
  Option, none, some, get_elem?, inl, inr, Bool-cases, arith, pick_true, pick_false,
}
use zltool_kit.Kit.Maps.{find}
use mathlib.Core.Path.{subst}
use zltool_kit.Network.UdpServer.{
  Datagram, Task, creates, receives, receives_weak, Received, Server, helper_of, post, lose,
  emit_session_recv, async_recv, new_helper, find_or_make, helper_creator, dispatch, create_session,
  read_found, on_read_l, recv_if_locked, on_peer_read, run_creates, run_task, with_task, take_task,
  run_taken, run_poller, on_err, erase_peer, run_erasure, on_manager_session,
}
use zltool_kit.Network.UdpServer.Histories.{
  History, starts, arrives, arrives_late, reads, runs, errs, erases, manages,
}

abbrev pub is_it : Datagram → Datagram → ℕ
is_it d e = if (d.from == e.from) && (d.number == e.number) then 1 else 0

abbrev pub datagram : Task → Datagram
datagram (creates d) = d
datagram (receives h d) = d
datagram (receives_weak h d) = d

abbrev pub count : Datagram → List Datagram → ℕ
count d [] = 0
count d (e ∷ es) = is_it d e + count d es

abbrev pub count_received : Datagram → List Received → ℕ
count_received d [] = 0
count_received d (r ∷ rs) = is_it d r.what + count_received d rs

abbrev pub count_tasks : Datagram → List (ℕ × Task) → ℕ
count_tasks d [] = 0
count_tasks d ((p, t) ∷ ts) = is_it d (datagram t) + count_tasks d ts

abbrev pub places : Datagram → Server → ℕ
places d s = count_received d s.received + count_tasks d s.tasks + count d s.lost

module _ (d : Datagram) where
  count-append : (xs ys : List Datagram) → count d (xs ++ ys) ≡ count d xs + count d ys
  count-append [] ys = omega arith
  count-append (x ∷ xs) ys = omega (arith, count-append xs ys)

  received-append :
      (xs ys : List Received)
      → count_received d (xs ++ ys) ≡ count_received d xs + count_received d ys
  received-append [] ys = omega arith
  received-append (x ∷ xs) ys = omega (arith, received-append xs ys)

  tasks-append :
      (xs ys : List (ℕ × Task)) → count_tasks d (xs ++ ys) ≡ count_tasks d xs + count_tasks d ys
  tasks-append [] ys = omega arith
  tasks-append ((p, t) ∷ xs) ys = omega (arith, tasks-append xs ys)

  -- A step that puts the datagram `e` at one more place.
  abbrev IsPut : Datagram → Server → Server → Type 0
  IsPut e s t = places d t ≡ places d s + is_it d e

  lose-places : (e : Datagram) (s : Server) → IsPut e s (lose e s)
  lose-places e s = omega (arith, count-append s.lost (e ∷ []))

  post-places : (p : ℕ) (t : Task) (s : Server) → IsPut (datagram t) s (post p t s)
  post-places p t s = omega (arith, tasks-append s.tasks ((p, t) ∷ []))

  emit-places : (cur h : ℕ) (e : Datagram) (s : Server) → IsPut e s (emit_session_recv cur h e s)
  unfolding emit_session_recv
  emit-places cur h e s = elim (Bool-cases (helper_of h s).enable) [
    | inl on ↦
        subst (IsPut e s) (sym (pick_true _ _ on)) (
          omega
            (arith, received-append s.received (record { on = cur; helper = h; what = e } ∷ [])))
    | inr off ↦ subst (IsPut e s) (sym (pick_false _ _ off)) (lose-places e s)
  ]

  async-places :
      (cur h : ℕ) (e : Datagram) (t : Task) (s : Server)
      → datagram t ≡ e
      → IsPut e s (async_recv cur h e t s)
  unfolding async_recv
  async-places cur h e t s x = elim (Bool-cases ((helper_of h s).poller == cur)) [
    | inl here ↦ subst (IsPut e s) (sym (pick_true _ _ here)) (emit-places cur h e s)
    | inr there ↦ subst (IsPut e s) (sym (pick_false _ _ there)) (
        subst (λ z. IsPut z s (post (helper_of h s).poller t s)) x
          (post-places (helper_of h s).poller t s))
  ]

  found-places :
      (place p peer : ℕ) (s : Server) (o : Option ℕ)
      → places d (find_or_make place p peer s o).0 ≡ places d s
  unfolding find_or_make new_helper
  found-places place p peer s none = refl
  found-places place p peer s (some h) = refl

  creator-places :
      (place p peer : ℕ) (s : Server) → places d (helper_creator place p peer s).0 ≡ places d s
  unfolding helper_creator
  creator-places place p peer s = found-places place p peer s (find peer s.sessions)

  create-places :
      (place cur : ℕ) (e : Datagram) (choice : Option ℕ) (s : Server)
      → IsPut e s (create_session place cur e choice s)
  unfolding create_session dispatch
  create-places place cur e none s = lose-places e s
  create-places place cur e (some p) s = elim (Bool-cases (p == cur)) [
    | inl here ↦
        let made = helper_creator place p e.from s in
        let put = async-places cur made.1 e (receives_weak made.1 e) made.0 refl in
        subst (IsPut e s) (sym (pick_true _ _ here))
          (omega (arith, put, creator-places place p e.from s))
    | inr there ↦ subst (IsPut e s) (sym (pick_false _ _ there)) (post-places p (creates e) s)
  ]

  read_found-places :
      (place cur : ℕ) (e : Datagram) (choice : Option ℕ) (s : Server) (o : Option ℕ)
      → IsPut e s (read_found place cur e choice s o)
  unfolding read_found dispatch
  read_found-places place cur e choice s none = create-places place cur e choice s
  read_found-places place cur e choice s (some h) = async-places cur h e (receives_weak h e) s refl

  read-places :
      (place cur : ℕ) (e : Datagram) (choice : Option ℕ) (s : Server)
      → IsPut e s (on_read_l place cur e choice s)
  unfolding on_read_l
  read-places place cur e choice s = read_found-places place cur e choice s (find e.from s.sessions)

  locked-places :
      (locked : Bool) (cur h : ℕ) (e : Datagram) (s : Server)
      → IsPut e s (recv_if_locked locked cur h e s)
  unfolding recv_if_locked
  locked-places true cur h e s = emit-places cur h e s
  locked-places false cur h e s = lose-places e s

  peer_read-places :
      (locked : Bool) (place h : ℕ) (e : Datagram) (choice : Option ℕ) (s : Server)
      → IsPut e s (on_peer_read locked place h e choice s)
  unfolding on_peer_read
  peer_read-places locked place h e choice s = elim (Bool-cases ((helper_of h s).peer == e.from)) [
    | inl own ↦
        subst (IsPut e s) (sym (pick_true _ _ own))
          (locked-places locked (helper_of h s).poller h e s)
    | inr other ↦
        subst (IsPut e s) (sym (pick_false _ _ other))
          (read-places place (helper_of h s).poller e choice s)
  ]

  run_task-places :
      (alive locked : Bool) (place cur : ℕ) (t : Task) (s : Server)
      → IsPut (datagram t) s (run_task alive locked place cur t s)
  unfolding run_task run_creates
  run_task-places true locked place cur (creates e) s =
      let made = helper_creator place cur e.from s in
      let put = async-places cur made.1 e (receives made.1 e) made.0 refl in
      omega (arith, put, creator-places place cur e.from s)
  run_task-places false locked place cur (creates e) s = lose-places e s
  run_task-places alive locked place cur (receives h e) s = emit-places cur h e s
  run_task-places alive locked place cur (receives_weak h e) s = locked-places locked cur h e s

  -- A task taken is one fewer.
  abbrev IsTaken : List (ℕ × Task) → Option (Task × List (ℕ × Task)) → Type 0
  IsTaken ts none = Unit
  IsTaken ts (some (t, rest)) = count_tasks d ts ≡ is_it d (datagram t) + count_tasks d rest

  with_task-count :
      (q : ℕ) (t : Task) (ts : List (ℕ × Task)) (o : Option (Task × List (ℕ × Task)))
      → IsTaken ts o
      → IsTaken ((q, t) ∷ ts) (with_task (q, t) o)
  with_task-count q t ts none h = tt
  with_task-count q t ts (some (u, rest)) h = omega (arith, h)

  take_task-count : (p : ℕ) (ts : List (ℕ × Task)) → IsTaken ts (take_task p ts)
  take_task-count p [] = tt
  take_task-count p ((q, t) ∷ ts) = elim (Bool-cases (q == p)) [
    | inl same ↦ subst (IsTaken ((q, t) ∷ ts)) (sym (pick_true _ _ same)) refl
    | inr other ↦
        subst (IsTaken ((q, t) ∷ ts)) (sym (pick_false _ _ other))
          (with_task-count q t ts (take_task p ts) (take_task-count p ts))
  ]

  run_taken-places :
      (alive locked : Bool) (place cur : ℕ) (s : Server) (o : Option (Task × List (ℕ × Task)))
      → IsTaken s.tasks o
      → places d (run_taken alive locked place cur s o) ≡ places d s
  unfolding run_taken
  run_taken-places alive locked place cur s none h = refl
  run_taken-places alive locked place cur s (some (t, rest)) h =
      omega (arith, h, run_task-places alive locked place cur t (record s { tasks = rest }))

erase_peer-places :
    (d : Datagram) (k : ℕ) (s : Server) (o : Option ℕ) → places d (erase_peer k s o) ≡ places d s
unfolding erase_peer
erase_peer-places d k s none = refl
erase_peer-places d k s (some peer) = refl

-- Over every interleaving of datagrams, tasks, errors and delayed erasures, each datagram is, as often as it
-- arrived, at one of three places: received by a session, in a task that waits, or dropped.
pub history-places :
    (calm : Bool) (d : Datagram) (ds : List Datagram) {s : Server}
    → History calm ds s
    → places d s ≡ count d ds
unfolding run_poller run_erasure on_manager_session on_err
history-places calm d ds starts = refl
history-places calm d ds (arrives es s place cur e choice c x) =
    omega (arith, read-places d place cur e choice s, history-places calm d es x)
history-places calm d ds (arrives_late es s place cur e choice o c p x) =
    omega (arith, read_found-places d place cur e choice s o, history-places calm d es x)
history-places calm d ds (reads es s locked place h e choice c b x) =
    omega (arith, peer_read-places d locked place h e choice s, history-places calm d es x)
history-places calm d ds (runs es s alive locked place cur c x) =
    run_taken-places d alive locked place cur s (take_task cur s.tasks)
      (take_task-count d cur s.tasks)
    ∙ history-places calm d es x
history-places calm d ds (errs es s alive locked h c b x) = history-places calm d es x
history-places calm d ds (erases es s k x) =
    erase_peer-places d k s (get_elem? s.erasures k) ∙ history-places calm d es x
history-places calm d ds (manages es s cur copy x) = history-places calm d es x
