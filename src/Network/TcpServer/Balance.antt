-- ===== src/Network/TcpServer/Balance.antt =====
-- The sessions of a server over time.
use zltool_kit.Kit.{
  ℕ, zero, suc, ◌+◌, ◌≤◌, ◌≡◌, refl, sym, ap, Bool, true, false, List, [], ◌∷◌, arith, pick_false,
}
use mathlib.Core.Path.{subst}
use zltool_kit.Kit.Counts.{is_it, count, erase_one, count-append, count-erase_one}
use zltool_kit.Kit.Maps.{emplace}
use zltool_kit.Network.TcpServer.{
  Server, new_server, hear, errored, on_accept_connection, remove_session, on_err,
  on_manager_session, run_first, run_task,
}
use zltool_kit.Network.TcpServer.Manager.{errs_of, failed, on_manager_session_lem}

-- What may happen, with the sessions that were accepted and had no error yet: the socket of a session reports one error,
-- at any time or while the manager runs.
pub data History : List ℕ → Server → Type 0 where
  starts : History [] new_server
  accepts :
      (healthy : List ℕ) (s : Server) (place h : ℕ)
      → History healthy s
      → History (h ∷ healthy) (on_accept_connection place h s)
  errs :
      (healthy : List ℕ) (s : Server) (locked : Bool) (h : ℕ)
      → 1 ≤ count h healthy
      → History healthy s
      → History (erase_one h healthy) (on_err locked h s)
  manages :
      (healthy left : List ℕ) (s : Server) (does : ℕ → List (Bool × ℕ))
      → ((i : ℕ) → count i healthy ≡ count i (failed (errs_of does s.sessions)) + count i left)
      → History healthy s
      → History left (on_manager_session does s)
  runs : (healthy : List ℕ) (s : Server) → History healthy s → History healthy (run_task s)

count-emplace :
    (i place x : ℕ) (xs : List ℕ) → count i (emplace place x xs) ≡ is_it i x + count i xs
count-emplace i zero x xs = refl
count-emplace i (suc n) x [] = refl
count-emplace i (suc n) x (y ∷ ys) = omega (arith, count-emplace i n x ys)

abbrev pub IsBalanced : List ℕ → Server → Type 0
IsBalanced healthy s = (i : ℕ) → count i s.sessions ≡ count i healthy + count i s.tasks

removed-IsBalanced :
    (healthy : List ℕ) (h : ℕ) (s : Server)
    → 1 ≤ count h healthy
    → s.is_on_manager ≡ false
    → IsBalanced healthy s
    → (remove_session h s).is_on_manager ≡ false
      × IsBalanced (erase_one h healthy) (remove_session h s)
unfolding remove_session
removed-IsBalanced healthy h s o off v =
    subst (λ z. z.is_on_manager ≡ false × IsBalanced (erase_one h healthy) z)
      (sym (pick_false _ _ off))
      (
        off,
        λ i. omega (
          arith,
          v i,
          count-erase_one i h healthy o,
          count-erase_one i h s.sessions (omega (arith, v h, o)),
        ),
      )

run_first-IsBalanced :
    (healthy : List ℕ) (s : Server) (ts : List ℕ)
    → s.tasks ≡ ts
    → s.is_on_manager ≡ false
    → IsBalanced healthy s
    → (run_first s ts).is_on_manager ≡ false × IsBalanced healthy (run_first s ts)
unfolding run_first
run_first-IsBalanced healthy s [] e off v = (off, v)
run_first-IsBalanced healthy s (h ∷ hs) e off v =
    let self : is_it h h ≡ 1 = ground arith in
    (
      off,
      λ i. omega (
        arith,
        v i,
        ap (count i) e,
        count-erase_one i h s.sessions (omega (arith, v h, ap (count h) e, self)),
      ),
    )

-- Over every history of accepted connections, errors, runs of the manager and posted tasks, the map holds the sessions
-- without an error and those that a waiting task will erase, and nothing else; between these steps the
-- manager's mark is off.
pub history-IsBalanced :
    (healthy : List ℕ) {s : Server}
    → History healthy s
    → (s.is_on_manager ≡ false) × IsBalanced healthy s
unfolding on_accept_connection on_err run_task
history-IsBalanced healthy starts = (refl, λ i. refl)
history-IsBalanced healthy (accepts o s place h x) =
    let (off, v) = history-IsBalanced o x in
    (off, λ i. omega (arith, v i, count-emplace i place h s.sessions))
history-IsBalanced healthy (errs o s true h b x) =
    let (off, v) = history-IsBalanced o x in removed-IsBalanced o h (hear (errored h) s) b off v
history-IsBalanced healthy (errs o s false h b x) =
    let (off, v) = history-IsBalanced o x in removed-IsBalanced o h s b off v
history-IsBalanced healthy (manages o left s does split x) =
    let (off, v) = history-IsBalanced o x in
    subst (λ z. z.is_on_manager ≡ false × IsBalanced left z) (sym (on_manager_session_lem does s))
      (
        refl,
        λ i. omega (arith, v i, split i, count-append i s.tasks (failed (errs_of does s.sessions))),
      )
history-IsBalanced healthy (runs o s x) =
    let (off, v) = history-IsBalanced o x in run_first-IsBalanced o s s.tasks refl off v
