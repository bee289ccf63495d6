-- ===== src/Poller/Events/Expired.antt =====
-- A descriptor that was deleted while a batch is handled is not called for again in it.
use zltool_kit.Kit.{
  ℕ, ◌≡◌, inl, inr, refl, sym, ap, ◌∙◌, Bool, true, false, ◌||◌, List, [], ◌∷◌, ◌++◌, Option, none,
  some, ◌==◌, arith, append_assoc, append-nil, Bool-cases, pick_true, pick_false,
}
use mathlib.Core.Path.{subst}
use zltool_kit.Poller.Events.{
  Events, find, contains, add_event, del_found, del_event, Act, add_act, del_act, act, act_all,
  call_found, handle_event, handle_all,
}

abbrev pub called_for : ℕ → List (ℕ × ℕ) → Bool
called_for fd [] = false
called_for fd (c ∷ cs) = (fd == c.0) || called_for fd cs

-- What a part of a batch does for a descriptor that is expired: it stays so, and is not called for.
record IsSilent (fd : ℕ) (s t : Events) : Type 0 where
  expired : contains fd t.event_cache_expired ≡ true
  new : List (ℕ × ℕ)
  calls : t.calls ≡ s.calls ++ new
  silent : called_for fd new ≡ false

or-true : (b : Bool) → (b || true) ≡ true
or-true true = refl
or-true false = refl

differ :
    (fd other : ℕ) (xs : List ℕ)
    → contains fd xs ≡ true
    → contains other xs ≡ false
    → (fd == other) ≡ false
differ fd other xs h live = elim (Bool-cases (fd == other)) [
  | inr apart ↦ apart
  | inl equal ↦
      let e : fd ≡ other = ground arith in
      let there : contains other xs ≡ true = subst (λ x. contains x xs ≡ true) e h in cc
]

called_for-append :
    (fd : ℕ) (cs ds : List (ℕ × ℕ))
    → called_for fd cs ≡ false
    → called_for fd ds ≡ false
    → called_for fd (cs ++ ds) ≡ false
called_for-append fd [] ds h k = k
called_for-append fd (c ∷ cs) ds h k = elim (Bool-cases (fd == c.0)) [
  | inl equal ↦ let never : true ≡ false = sym (ap (λ b. b || called_for fd cs) equal) ∙ h in cc
  | inr apart ↦
      ap (λ b. b || called_for fd (cs ++ ds)) apart
      ∙ called_for-append fd cs ds (sym (ap (λ b. b || called_for fd cs) apart) ∙ h) k
]

del_found-expired :
    (fd gone : ℕ) (found : Option ℕ) (s : Events)
    → contains fd s.event_cache_expired ≡ true
    → (contains fd (del_found gone found s).event_cache_expired ≡ true)
      × ((del_found gone found s).calls ≡ s.calls)
del_found-expired fd gone none s h = (h, refl)
del_found-expired fd gone (some cb) s h =
    (ap (λ b. (fd == gone) || b) h ∙ or-true (fd == gone), refl)

act-expired :
    (fd : ℕ) (a : Act) (s : Events)
    → contains fd s.event_cache_expired ≡ true
    → (contains fd (act a s).event_cache_expired ≡ true) × ((act a s).calls ≡ s.calls)
unfolding act add_event del_event
act-expired fd (add_act ok new cb) s h = (h, refl)
act-expired fd (del_act gone) s h = del_found-expired fd gone (find gone s.event_map) s h

act_all-expired :
    (fd : ℕ) (acts : List Act) (s : Events)
    → contains fd s.event_cache_expired ≡ true
    → (contains fd (act_all acts s).event_cache_expired ≡ true) × ((act_all acts s).calls ≡ s.calls)
act_all-expired fd [] s h = (h, refl)
act_all-expired fd (a ∷ rest) s h =
    let (h1, c1) = act-expired fd a s h in
    let (h2, c2) = act_all-expired fd rest (act a s) h1 in (h2, c2 ∙ c1)

call_found-IsSilent :
    (acts : ℕ → List Act) (fd other : ℕ) (found : Option ℕ) (s : Events)
    → contains fd s.event_cache_expired ≡ true
    → (fd == other) ≡ false
    → IsSilent fd s (call_found acts other found s)
call_found-IsSilent acts fd other none s h e = record {
  expired = h;
  new = [];
  calls = sym (append-nil s.calls);
  silent = refl;
}
call_found-IsSilent acts fd other (some cb) s h e =
    let (h1, c1) =
      act_all-expired fd (acts cb) (record s { calls = s.calls ++ ((other, cb) ∷ []) }) h in
    record { expired = h1; new = (other, cb) ∷ []; calls = c1; silent = rw e refl }

handle_event-IsSilent :
    (acts : ℕ → List Act) (fd other : ℕ) (s : Events)
    → contains fd s.event_cache_expired ≡ true
    → IsSilent fd s (handle_event acts other s)
unfolding handle_event
handle_event-IsSilent acts fd other s h = elim (Bool-cases (contains other s.event_cache_expired)) [
  | inl skip ↦
      subst (IsSilent fd s) (sym (pick_true _ _ skip))
        (record { expired = h; new = []; calls = sym (append-nil s.calls); silent = refl })
  | inr live ↦ subst (IsSilent fd s) (sym (pick_false _ _ live)) (
      call_found-IsSilent acts fd other (find other s.event_map) s h
        (differ fd other s.event_cache_expired h live))
]

handle_all-IsSilent :
    (acts : ℕ → List Act) (fd : ℕ) (fds : List ℕ) (s : Events)
    → contains fd s.event_cache_expired ≡ true
    → IsSilent fd s (handle_all acts fds s)
handle_all-IsSilent acts fd [] s h = record {
  expired = h;
  new = [];
  calls = sym (append-nil s.calls);
  silent = refl;
}
handle_all-IsSilent acts fd (other ∷ fds) s h =
    let a = handle_event-IsSilent acts fd other s h in
    let b = handle_all-IsSilent acts fd fds (handle_event acts other s) a.expired in
    record {
      expired = b.expired;
      new = a.new ++ b.new;
      calls = b.calls ∙ (ap (λ x. x ++ b.new) a.calls ∙ append_assoc s.calls a.new b.new);
      silent = called_for-append fd a.new b.new a.silent b.silent;
    }

del_event-expired :
    (fd cb : ℕ) (s : Events)
    → find fd s.event_map ≡ some cb
    → (contains fd (del_event fd s).event_cache_expired ≡ true) × ((del_event fd s).calls ≡ s.calls)
unfolding del_event
del_event-expired fd cb s h =
    let itself : (fd == fd) ≡ true = ground arith in
    subst
      (λ o.
        (contains fd (del_found fd o s).event_cache_expired ≡ true)
        × ((del_found fd o s).calls ≡ s.calls))
      (sym h) (ap (λ b. b || contains fd s.event_cache_expired) itself, refl)

-- Once a registered descriptor has been deleted while a batch is handled, no callback is called for it in the rest
-- of the batch, whatever the callback that deleted it still does, and whatever events follow, even if it
-- was added again in between.
pub del_event_lem :
    (acts : ℕ → List Act) (rest : List Act) (after : List ℕ) (fd cb : ℕ) (s : Events)
    → find fd s.event_map ≡ some cb
    → (new : List (ℕ × ℕ)) × ((handle_all acts after (act_all rest (del_event fd s))).calls
        ≡ s.calls ++ new)
      × (called_for fd new ≡ false)
del_event_lem acts rest after fd cb s h =
    let (gone, calls) = del_event-expired fd cb s h in
    let (kept, same) = act_all-expired fd rest (del_event fd s) gone in
    let x = handle_all-IsSilent acts fd after (act_all rest (del_event fd s)) kept in
    (x.new, x.calls ∙ ap (λ c. c ++ x.new) (same ∙ calls), x.silent)
