-- ===== src/Network/TcpServer/Manager.antt =====
-- The walk of onManagerSession over the sessions.
use zltool_kit.Kit.{
  ℕ, ◌≡◌, refl, sym, ap, ◌∙◌, Bool, true, false, List, [], ◌∷◌, ◌++◌, append_assoc, append-nil,
  pick_true,
}
use zltool_kit.Network.TcpServer.{
  Notice, managed, errored, Server, hear, remove_session, on_err, on_errs, manage_sessions,
  on_manager_session,
}

-- The errors of all calls of onManager, in their order.
abbrev pub errs_of : (ℕ → List (Bool × ℕ)) → List ℕ → List (Bool × ℕ)
errs_of does [] = []
errs_of does (h ∷ hs) = does h ++ errs_of does hs

abbrev pub failed : List (Bool × ℕ) → List ℕ
failed [] = []
failed ((locked, h) ∷ es) = h ∷ failed es

abbrev pub errs_heard : List (Bool × ℕ) → List Notice
errs_heard [] = []
errs_heard ((true, h) ∷ es) = errored h ∷ errs_heard es
errs_heard ((false, h) ∷ es) = errs_heard es

abbrev pub walk_heard : (ℕ → List (Bool × ℕ)) → List ℕ → List Notice
walk_heard does [] = []
walk_heard does (h ∷ hs) = managed h ∷ (errs_heard (does h) ++ walk_heard does hs)

pub failed-append : (xs ys : List (Bool × ℕ)) → failed (xs ++ ys) ≡ failed xs ++ failed ys
failed-append [] ys = refl
failed-append ((l, h) ∷ xs) ys = ap (◌∷◌ h) (failed-append xs ys)

abbrev walking : List ℕ → List ℕ → List Notice → Server
walking hs ts ns = record { sessions = hs; is_on_manager = true; tasks = ts; heard = ns }

-- Behind a part of the walk: more tasks and more heard, and the map as it was.
abbrev IsWalked : List ℕ → List Notice → Server → Server → Type 0
IsWalked ts ns s t = t ≡ walking s.sessions (s.tasks ++ ts) (s.heard ++ ns)

IsWalked-trans :
    (ts us : List ℕ) (ns ms : List Notice) (r s t : Server)
    → IsWalked ts ns r s
    → IsWalked us ms s t
    → IsWalked (ts ++ us) (ns ++ ms) r t
IsWalked-trans ts us ns ms r s t x y =
    y
    ∙ ap (λ z. walking z.sessions (z.tasks ++ us) (z.heard ++ ms)) x
    ∙ ap (λ z. walking r.sessions z ((r.heard ++ ns) ++ ms)) (append_assoc r.tasks ts us)
    ∙ ap (walking r.sessions (r.tasks ++ (ts ++ us))) (append_assoc r.heard ns ms)

still_walking : (s : Server) → s.is_on_manager ≡ true → IsWalked [] [] s s
still_walking s on =
    ap (λ b. record s { is_on_manager = b }) on
    ∙ ap (λ z. walking s.sessions z s.heard) (sym (append-nil s.tasks))
    ∙ ap (walking s.sessions (s.tasks ++ [])) (sym (append-nil s.heard))

removed_walking :
    (h : ℕ) (s : Server) → s.is_on_manager ≡ true → IsWalked (h ∷ []) [] s (remove_session h s)
unfolding remove_session
removed_walking h s on =
    pick_true _ _ on
    ∙ ap (λ b. record s { is_on_manager = b; tasks = s.tasks ++ (h ∷ []) }) on
    ∙ ap (walking s.sessions (s.tasks ++ (h ∷ []))) (sym (append-nil s.heard))

heard_walking :
    (n : Notice) (s : Server) → s.is_on_manager ≡ true → IsWalked [] (n ∷ []) s (hear n s)
heard_walking n s on =
    ap (λ b. record (hear n s) { is_on_manager = b }) on
    ∙ ap (λ z. walking s.sessions z (s.heard ++ (n ∷ []))) (sym (append-nil s.tasks))

IsWalked-on :
    (ts : List ℕ) (ns : List Notice) (s t : Server) → IsWalked ts ns s t → t.is_on_manager ≡ true
IsWalked-on ts ns s t x = ap (λ z. z.is_on_manager) x

on_errs-IsWalked :
    (es : List (Bool × ℕ)) (s : Server)
    → s.is_on_manager ≡ true
    → IsWalked (failed es) (errs_heard es) s (on_errs es s)
unfolding on_errs on_err
on_errs-IsWalked [] s on = still_walking s on
on_errs-IsWalked ((true, h) ∷ es) s on =
    let a = heard_walking (errored h) s on in
    let b = removed_walking h (hear (errored h) s) on in
    let c =
      on_errs-IsWalked es (remove_session h (hear (errored h) s))
        (IsWalked-on (h ∷ []) [] (hear (errored h) s) _ b) in
    IsWalked-trans (h ∷ []) (failed es) (errored h ∷ []) (errs_heard es) s _ _
      (IsWalked-trans [] (h ∷ []) (errored h ∷ []) [] s (hear (errored h) s) _ a b) c
on_errs-IsWalked ((false, h) ∷ es) s on =
    let b = removed_walking h s on in
    let c = on_errs-IsWalked es (remove_session h s) (IsWalked-on (h ∷ []) [] s _ b) in
    IsWalked-trans (h ∷ []) (failed es) [] (errs_heard es) s _ _ b c

manage-IsWalked :
    (does : ℕ → List (Bool × ℕ)) (hs : List ℕ) (s : Server)
    → s.is_on_manager ≡ true
    → IsWalked (failed (errs_of does hs)) (walk_heard does hs) s (manage_sessions does hs s)
unfolding manage_sessions
manage-IsWalked does [] s on = still_walking s on
manage-IsWalked does (h ∷ hs) s on =
    let a = heard_walking (managed h) s on in
    let b = on_errs-IsWalked (does h) (hear (managed h) s) on in
    let ab =
      IsWalked-trans [] (failed (does h)) (managed h ∷ []) (errs_heard (does h)) s
        (hear (managed h) s) (on_errs (does h) (hear (managed h) s)) a b in
    let c =
      manage-IsWalked does hs (on_errs (does h) (hear (managed h) s))
        (IsWalked-on (failed (does h)) (errs_heard (does h)) (hear (managed h) s) _ b) in
    IsWalked-trans (failed (does h)) (failed (errs_of does hs)) (managed h ∷ errs_heard (does h))
      (walk_heard does hs) s (on_errs (does h) (hear (managed h) s)) _ ab c
    ∙ ap (λ z. walking s.sessions (s.tasks ++ z) (s.heard ++ walk_heard does (h ∷ hs)))
        (sym (failed-append (does h) (errs_of does hs)))

abbrev turned_off : Server → Server
turned_off s = record s { is_on_manager = false }

-- Whatever errors the calls of onManager lead to, onManagerSession calls onManager of each session in the map once, in
-- the order of the map, each followed by the errors that it led to; the map is not changed meanwhile; and
-- the sessions that had an error are left, in order, to posted tasks that erase them.
pub on_manager_session_lem :
    (does : ℕ → List (Bool × ℕ)) (s : Server)
    → on_manager_session does s ≡ record s {
      is_on_manager = false;
      tasks = s.tasks ++ failed (errs_of does s.sessions);
      heard = s.heard ++ walk_heard does s.sessions;
    }
unfolding on_manager_session
on_manager_session_lem does s =
    ap turned_off (manage-IsWalked does s.sessions (record s { is_on_manager = true }) refl)
