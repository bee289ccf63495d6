-- ===== src/Network/Accept/Places.antt =====
-- Where the connections go.
use zltool_kit.Kit.{
  ℕ, suc, ◌≡◌, refl, sym, ap, ◌∙◌, Bool, true, false, not, ◌&&◌, List, [], ◌∷◌, ◌++◌, append_assoc,
  append-nil, Option, none, some, if◌then◌else◌, inl, inr, Bool-cases, pick_true, pick_false,
}
use zltool_kit.Network.Accept.{
  Child, Answer, interrupted, would_block, refused, gives, Listener, complete, hand, close_fd,
  emit_err, Result, accept_loop, on_accept,
}

-- A connection that waits, or an interruption.
abbrev pub Waits : Type 0
Waits = Option (ℕ × Child)

abbrev pub answer : Waits → Answer
answer none = interrupted
answer (some (fd, c)) = gives fd c

abbrev pub answers : List Waits → List Answer → List Answer
answers [] more = more
answers (w ∷ ws) more = answer w ∷ answers ws more

-- The connections that reach onAccept.
abbrev pub handed_of : List Waits → List ℕ
handed_of [] = []
handed_of (none ∷ ws) = handed_of ws
handed_of (some (fd, c) ∷ ws) = if c.before_throws then handed_of ws else fd ∷ handed_of ws

-- Where a connection goes.
pub data Place : Type 0 where
  shut : Place
  kept_back : Place
  polled : Place
  broken : Place

abbrev pub goes : Place → Child → Bool
goes shut c = c.before_throws
goes kept_back c = not c.before_throws && c.keeps
goes polled c = not c.before_throws && not c.keeps && c.attach_ok
goes broken c = not c.before_throws && not c.keeps && not c.attach_ok

abbrev pub at : Place → Listener → List ℕ
at shut s = s.closed
at kept_back s = s.kept
at polled s = s.attached
at broken s = s.failed

-- The connections that go to a place.
abbrev pub going : Place → List Waits → List ℕ
going p [] = []
going p (none ∷ ws) = going p ws
going p (some (fd, c) ∷ ws) = if goes p c then fd ∷ going p ws else going p ws

-- Behind the connections: each is where it goes, in order, onAccept heard of them in order, and nothing else changed.
abbrev pub IsAccepted : List Waits → Listener → Listener → Type 0
IsAccepted ws s t =
    ((p : Place) → at p t ≡ at p s ++ going p ws)
    × (t.handed ≡ s.handed ++ handed_of ws)
    × (t.retries ≡ s.retries)
    × (t.errors ≡ s.errors)

one_more :
    (xs ys : List ℕ) (fd : ℕ) (b : Bool) (zs : List ℕ)
    → zs ≡ (xs ++ (if b then fd ∷ [] else [])) ++ ys
    → zs ≡ xs ++ (if b then fd ∷ ys else ys)
one_more xs ys fd true zs e = e ∙ append_assoc xs (fd ∷ []) ys
one_more xs ys fd false zs e = e ∙ append_assoc xs [] ys

abbrev alone : ℕ → Bool → List ℕ
alone fd b = if b then fd ∷ [] else []

close-at :
    (p : Place) (fd : ℕ) (c : Child) (s : Listener)
    → c.before_throws ≡ true
    → at p (close_fd fd s) ≡ at p s ++ alone fd (goes p c)
close-at shut fd c s b = rw b refl
close-at kept_back fd c s b = rw b (sym (append-nil s.kept))
close-at polled fd c s b = rw b (sym (append-nil s.attached))
close-at broken fd c s b = rw b (sym (append-nil s.failed))

hand-at :
    (p : Place) (fd : ℕ) (c : Child) (s : Listener)
    → c.before_throws ≡ false
    → at p (hand fd c s) ≡ at p s ++ alone fd (goes p c)
unfolding hand complete
hand-at p fd c s b = elim (Bool-cases c.keeps) [
  | inl yet ↦ keeping p yet
  | inr gone ↦ elim (Bool-cases c.attach_ok) [
    | inl ok ↦ attaching p gone ok
    | inr bad ↦ failing p gone bad
  ]
]
  where
    keeping : (p : Place) → c.keeps ≡ true → at p (hand fd c s) ≡ at p s ++ alone fd (goes p c)
    keeping shut yet = rw (yet, b) (sym (append-nil s.closed))
    keeping kept_back yet = rw (yet, b) refl
    keeping polled yet = rw (yet, b) (sym (append-nil s.attached))
    keeping broken yet = rw (yet, b) (sym (append-nil s.failed))

    attaching :
        (p : Place)
        → c.keeps ≡ false
        → c.attach_ok ≡ true
        → at p (hand fd c s) ≡ at p s ++ alone fd (goes p c)
    attaching shut gone ok = rw (gone, ok, b) (sym (append-nil s.closed))
    attaching kept_back gone ok = rw (gone, ok, b) (sym (append-nil s.kept))
    attaching polled gone ok = rw (gone, ok, b) refl
    attaching broken gone ok = rw (gone, ok, b) (sym (append-nil s.failed))

    failing :
        (p : Place)
        → c.keeps ≡ false
        → c.attach_ok ≡ false
        → at p (hand fd c s) ≡ at p s ++ alone fd (goes p c)
    failing shut gone bad = rw (gone, bad, b) (sym (append-nil s.closed))
    failing kept_back gone bad = rw (gone, bad, b) (sym (append-nil s.kept))
    failing polled gone bad = rw (gone, bad, b) (sym (append-nil s.attached))
    failing broken gone bad = rw (gone, bad, b) refl

hand-rest :
    (fd : ℕ) (c : Child) (s : Listener)
    → ((hand fd c s).handed ≡ s.handed ++ (fd ∷ []))
      × ((hand fd c s).retries ≡ s.retries)
      × ((hand fd c s).errors ≡ s.errors)
unfolding hand complete
hand-rest fd c s = elim (Bool-cases c.keeps) [
  | inl yet ↦ rw yet (refl, refl, refl)
  | inr gone ↦ elim (Bool-cases c.attach_ok) [
    | inl ok ↦ rw (gone, ok) (refl, refl, refl)
    | inr bad ↦ rw (gone, bad) (refl, refl, refl)
  ]
]

IsAccepted-close :
    (fd : ℕ) (c : Child) (ws : List Waits) (s t : Listener)
    → c.before_throws ≡ true
    → IsAccepted ws (close_fd fd s) t
    → IsAccepted (some (fd, c) ∷ ws) s t
IsAccepted-close fd c ws s t b (p, h, r, e) = (
  λ q.
      one_more (at q s) (going q ws) fd (goes q c) (at q t)
        (p q ∙ ap (λ z. z ++ going q ws) (close-at q fd c s b)),
  h ∙ ap (s.handed ++◌) (sym (pick_true _ _ b)),
  r,
  e,
)

IsAccepted-hand :
    (fd : ℕ) (c : Child) (ws : List Waits) (s t : Listener)
    → c.before_throws ≡ false
    → IsAccepted ws (hand fd c s) t
    → IsAccepted (some (fd, c) ∷ ws) s t
IsAccepted-hand fd c ws s t b (p, h, r, e) =
    let (g, u, f) = hand-rest fd c s in
    (
      λ q.
          one_more (at q s) (going q ws) fd (goes q c) (at q t)
            (p q ∙ ap (λ z. z ++ going q ws) (hand-at q fd c s b)),
      h
          ∙ ap (λ z. z ++ handed_of ws) g
          ∙ append_assoc s.handed (fd ∷ []) (handed_of ws)
          ∙ ap (s.handed ++◌) (sym (pick_false _ _ b)),
      r ∙ u,
      e ∙ f,
    )

-- How accept ends the loop: with nothing more, or with an error, after which a delayed call is asked for.
abbrev pub stop : Bool → Answer
stop true = would_block
stop false = refused

abbrev pub stopped : Bool → Listener → Listener
stopped true s = s
stopped false s = record s { retries = suc s.retries }

abbrev pub Ends : List Waits → Bool → List Answer → Listener → Result → Type 0
Ends ws ok more s r = (t : Listener) × ((r ≡ some (stopped ok t, ok, more)) × IsAccepted ws s t)

accept_loop-Ends :
    (ws : List Waits) (ok : Bool) (more : List Answer) (s : Listener)
    → Ends ws ok more s (accept_loop false (answers ws (stop ok ∷ more)) s)
unfolding accept_loop
accept_loop-Ends [] true more s =
    (s, (refl, (λ p. sym (append-nil (at p s)), sym (append-nil s.handed), refl, refl)))
accept_loop-Ends [] false more s =
    (s, (refl, (λ p. sym (append-nil (at p s)), sym (append-nil s.handed), refl, refl)))
accept_loop-Ends (none ∷ ws) ok more s = accept_loop-Ends ws ok more s
accept_loop-Ends (some (fd, c) ∷ ws) ok more s = elim (Bool-cases c.before_throws) [
  | inl thrown ↦
      let (t, (done, v)) = accept_loop-Ends ws ok more (close_fd fd s) in
      (t, (pick_true _ _ thrown ∙ done, IsAccepted-close fd c ws s t thrown v))
  | inr made ↦
      let (t, (done, v)) = accept_loop-Ends ws ok more (hand fd c s) in
      let rest = accept_loop false (answers ws (stop ok ∷ more)) (hand fd c s) in
      (
        t,
        (
          pick_false _ _ made ∙ either c.accept_throws rest ∙ done,
          IsAccepted-hand fd c ws s t made v,
        ),
      )
]
  where
    either : (b : Bool) (r : Result) → (if b then r else r) ≡ r
    either true r = refl
    either false r = refl

-- Whatever connections wait and whatever the callbacks do with them, a readable event without an error accepts until
-- accept has nothing more, which gives 0, or fails, which gives -1 and one delayed call; each
-- descriptor is then at its place, behind those that were there, in order: closed if onBeforeAccept threw, else kept if
-- onAccept kept it, else in the poller if the poller took it, else with an error reported; onAccept heard of
-- those not closed, in order; and nothing else changed.
pub on_accept_lem :
    (ws : List Waits) (ok : Bool) (more : List Answer) (s : Listener)
    → Ends ws ok more s (on_accept true false (answers ws (stop ok ∷ more)) s)
unfolding on_accept
on_accept_lem ws ok more s = accept_loop-Ends ws ok more s

-- If the event has an error too, the loop ends behind the first connection that onAccept takes without throwing, whatever
-- connections wait behind it.
pub accept_error_lem :
    (fd : ℕ) (c : Child) (more : List Answer) (s : Listener)
    → c.before_throws ≡ false
    → c.accept_throws ≡ false
    → on_accept true true (gives fd c ∷ more) s ≡ some (emit_err (hand fd c s), false, more)
unfolding on_accept accept_loop
accept_error_lem fd c more s b a = pick_false _ _ b ∙ pick_false _ _ a
