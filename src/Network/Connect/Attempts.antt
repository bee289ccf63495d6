-- ===== src/Network/Connect/Attempts.antt =====
-- What each operation does to the attempt that waits.
use zltool_kit.Kit.{
  ℕ, suc, ◌+◌, ◌≡◌, refl, sym, ap, ◌∙◌, Bool, true, false, List, [], ◌∷◌, ◌++◌, Option, none, some,
  ◌==◌, if◌then◌else◌, ltb, inl, inr, Bool-cases, arith, pick_true, pick_false,
}
use mathlib.Core.Path.{subst}
use zltool_kit.Kit.Counts.{is_it, count, count-append}
use zltool_kit.Network.Connect.{
  Conn, end_watch, set_sock, pending, close_sock, report, con_cb, start, connect_l, is_for,
  on_resolved, fire, on_timeout, on_connected, writable, on_event,
}

abbrev pub reported : List (ℕ × Bool) → List ℕ
reported [] = []
reported ((k, err) ∷ rs) = k ∷ reported rs

abbrev pub made : ℕ → ℕ → ℕ
made i n = if ltb i n then 1 else 0

-- An attempt was reported, dropped, or waits with the timer on: one of these, and once.
abbrev pub IsCounted : Conn → Type 0
IsCounted c =
    (i : ℕ)
    → count i (reported c.reports) + count i c.dropped + count i (pending c.timer)
      ≡ made i c.attempts

-- What waits is the attempt of the timer.
abbrev pub IsWaiting : Option ℕ → Option ℕ → Type 0
IsWaiting timer none = Unit
IsWaiting timer (some k) = timer ≡ some k

-- What is watched is the socket's descriptor, for the attempt of the timer.
abbrev pub IsWatch : Option ℕ → Option ℕ → Option (ℕ × ℕ) → Type 0
IsWatch sock timer none = Unit
IsWatch sock timer (some (g, k)) = (sock ≡ some g) × (timer ≡ some k)

abbrev pub IsWell : Conn → Type 0
IsWell c = IsCounted c × IsWaiting c.timer c.async_cb × IsWatch c.sock c.timer c.watched

reported-append :
    (i : ℕ) (rs : List (ℕ × Bool)) (k : ℕ) (err : Bool)
    → count i (reported (rs ++ ((k, err) ∷ []))) ≡ count i (reported rs) + is_it i k
reported-append i [] k err = omega arith
reported-append i ((j, e) ∷ rs) k err = omega (arith, reported-append i rs k err)

made_next : (i n : ℕ) → made i n + is_it i n ≡ made i (suc n)
made_next i n = ground arith

-- The end of the watch with the socket.
unwatched :
    (sock timer : Option ℕ) (w : Option (ℕ × ℕ)) → IsWatch sock timer w → end_watch sock w ≡ none
unwatched none timer none v = refl
unwatched none timer (some (g, k)) v = absurd (ground (arith, v.0))
unwatched (some f) timer none v = refl
unwatched (some f) timer (some (g, k)) v =
    let e : (g == f) ≡ true = ground (arith, v.0) in pick_true _ _ e

new_IsWatch :
    (o timer : Option ℕ) (f k : ℕ)
    → timer ≡ some k
    → IsWatch (some f) timer (end_watch o (some (f, k)))
new_IsWatch none timer f k t = (refl, t)
new_IsWatch (some g) timer f k t = elim (Bool-cases (f == g)) [
  | inl same ↦ subst (IsWatch (some f) timer) (sym (pick_true _ _ same)) tt
  | inr other ↦ subst (IsWatch (some f) timer) (sym (pick_false _ _ other)) (refl, t)
]

report-IsCounted :
    (k : ℕ) (err : Bool) (c : Conn) → c.timer ≡ some k → IsCounted c → IsCounted (report k err c)
report-IsCounted k err c t v i =
    omega (arith, v i, reported-append i c.reports k err, ap (λ o. count i (pending o)) t)

con_cb-IsWell :
    (k : ℕ) (err : Bool) (c : Conn)
    → c.timer ≡ some k
    → IsWatch c.sock c.timer (if err then c.watched else none)
    → (err ≡ false → c.watched ≡ none)
    → IsCounted c
    → IsWell (con_cb k err c)
unfolding con_cb set_sock
con_cb-IsWell k true c t w e v = (
  report-IsCounted k true (record c { sock = none; watched = end_watch c.sock c.watched }) t v,
  tt,
  subst (IsWatch none none) (sym (unwatched c.sock c.timer c.watched w)) tt,
)
con_cb-IsWell k false c t w e v =
    (report-IsCounted k false c t v, tt, subst (IsWatch c.sock none) (sym (e refl)) tt)

fails-IsWell : (k : ℕ) (c : Conn) → c.timer ≡ some k → IsWell c → IsWell (con_cb k true c)
fails-IsWell k c t (counted, waiting, watch) =
    con_cb-IsWell k true c t watch (λ e. absurd (ground (arith, e))) counted

start-IsWell :
    (k : ℕ) (fd : Option ℕ) (add_ok : Bool) (c : Conn)
    → c.timer ≡ some k
    → IsWell c
    → IsWell (start k fd add_ok c)
unfolding start set_sock
start-IsWell k none add_ok c t v = fails-IsWell k c t v
start-IsWell k (some f) true c t (counted, waiting, watch) =
    (counted, waiting, new_IsWatch c.sock c.timer f k t)
start-IsWell k (some f) false c t v = fails-IsWell k c t v

pub close-IsWell : (close_fd : Bool) (c : Conn) → IsWell c → IsWell (close_sock close_fd c)
unfolding close_sock
close-IsWell close_fd c (counted, waiting, watch) = (
  λ i. omega (arith, counted i, count-append i c.dropped (pending c.timer)),
  tt,
  subst (IsWatch (if close_fd then none else c.sock) none)
      (sym (unwatched c.sock c.timer c.watched watch)) tt,
)

-- A new attempt, with its timer.
abbrev arm : Conn → Conn
arm c = record c { timer = some c.attempts; attempts = suc c.attempts }

armed-IsWell :
    (c : Conn) → c.timer ≡ none → c.async_cb ≡ none → c.watched ≡ none → IsWell c → IsWell (arm c)
armed-IsWell c t a w (counted, waiting, watch) = (
  λ i. omega (arith, counted i, made_next i c.attempts, ap (λ o. count i (pending o)) t),
  subst (IsWaiting (some c.attempts)) (sym a) tt,
  subst (IsWatch c.sock (some c.attempts)) (sym w) tt,
)

pub connect-IsWell :
    (is_ip : Bool) (fd : Option ℕ) (add_ok : Bool) (c : Conn)
    → IsWell c
    → IsWell (connect_l is_ip fd add_ok c)
unfolding connect_l close_sock
connect-IsWell is_ip fd add_ok c v =
    let gone = unwatched c.sock c.timer c.watched v.2 in
    let w = armed-IsWell (close_sock true c) refl refl gone (close-IsWell true c v) in
    by_kind is_ip w
  where
    by_kind :
        (is_ip : Bool) → IsWell (arm (close_sock true c)) → IsWell (connect_l is_ip fd add_ok c)
    by_kind true w = start-IsWell c.attempts fd add_ok (arm (close_sock true c)) refl w
    by_kind false w = (w.0, refl, w.2)

pub resolved-IsWell :
    (k : ℕ) (fd : Option ℕ) (add_ok : Bool) (c : Conn)
    → IsWell c
    → IsWell (on_resolved k fd add_ok c)
unfolding on_resolved
resolved-IsWell k fd add_ok c v = go c.async_cb refl
  where
    waits : (o : Option ℕ) → c.async_cb ≡ o → is_for k o ≡ true → c.timer ≡ some k
    waits none e h = absurd (ground (arith, h))
    waits (some j) e h =
        let same : j ≡ k = ground (arith, h) in subst (IsWaiting c.timer) e v.1 ∙ ap some same

    go : (o : Option ℕ) → c.async_cb ≡ o → IsWell (on_resolved k fd add_ok c)
    go o e = elim (Bool-cases (is_for k c.async_cb)) [
      | inl held ↦
          subst IsWell (sym (pick_true _ _ held))
            (start-IsWell k fd add_ok c (waits c.async_cb refl held) v)
      | inr gone ↦ subst IsWell (sym (pick_false _ _ gone)) v
    ]

fire-IsWell : (o : Option ℕ) (c : Conn) → c.timer ≡ o → IsWell c → IsWell (fire o c)
unfolding fire
fire-IsWell none c e v = v
fire-IsWell (some k) c e v = fails-IsWell k c e v

pub timeout-IsWell : (c : Conn) → IsWell c → IsWell (on_timeout c)
unfolding on_timeout
timeout-IsWell c v = fire-IsWell c.timer c refl v

connected-IsWell :
    (f k : ℕ) (err attach_ok : Bool) (c : Conn)
    → c.timer ≡ some k
    → IsWell c
    → IsWell (on_connected f k err attach_ok c)
unfolding on_connected set_sock
connected-IsWell f k true attach_ok c t v = fails-IsWell k c t v
connected-IsWell f k false true c t (counted, waiting, watch) =
    con_cb-IsWell k false _ t tt (λ e. refl) counted
connected-IsWell f k false false c t (counted, waiting, watch) =
    con_cb-IsWell k true _ t tt (λ e. absurd (ground (arith, e))) counted

writable-IsWell :
    (w : Option (ℕ × ℕ)) (err attach_ok : Bool) (c : Conn)
    → c.watched ≡ w
    → IsWell c
    → IsWell (writable w err attach_ok c)
unfolding writable
writable-IsWell none err attach_ok c e v = v
writable-IsWell (some (f, k)) err attach_ok c e v =
    connected-IsWell f k err attach_ok c (subst (IsWatch c.sock c.timer) e v.2).1 v

pub event-IsWell : (err attach_ok : Bool) (c : Conn) → IsWell c → IsWell (on_event err attach_ok c)
unfolding on_event
event-IsWell err attach_ok c v = writable-IsWell c.watched err attach_ok c refl v
