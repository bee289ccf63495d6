-- ===== src/Util/Notice/Emit.antt =====
-- What an emit calls, returns and leaves behind.
use zltool_kit.Kit.{
  ℕ, suc, ◌+◌, ◌≡◌, refl, ap, ◌∙◌, sym, List, [], ◌∷◌, ◌++◌, Option, none, some, length, append-nil,
  arith,
}
use zltool_kit.Kit.Maps.{find}
use zltool_kit.Util.Notice.{
  Listener, Center, Act, Outcome, returns, interrupts, throws, Call, Emitted, act, act_all,
  after_call, call_listeners, emit_event, emit_found, listeners_of,
}

abbrev pub goes_on : Outcome → List ℕ → List ℕ
goes_on returns fs = fs
goes_on interrupts fs = []
goes_on throws fs = []

abbrev pub thrown : Outcome → Option ℕ → Option ℕ
thrown returns n = n
thrown interrupts n = n
thrown throws n = none

-- The callbacks up to the first one that does not return, with it.
abbrev pub calls_until : (does : ℕ → Call) → List ℕ → List ℕ
calls_until does [] = []
calls_until does (f ∷ fs) = f ∷ goes_on (does f).outcome (calls_until does fs)

abbrev pub last_throws : (does : ℕ → Call) → List ℕ → Option ℕ → Option ℕ
last_throws does [] n = n
last_throws does (f ∷ fs) n = thrown (does f).outcome (last_throws does fs n)

abbrev pub acts_of : (does : ℕ → Call) → List ℕ → List Act
acts_of does [] = []
acts_of does (f ∷ fs) = (does f).acts ++ acts_of does fs

abbrev pub funcs : List Listener → List ℕ
funcs [] = []
funcs (x ∷ xs) = x.func ∷ funcs xs

-- The callbacks registered for an event.
unfoldable pub listeners_found : Center → Option ℕ → List Listener
listeners_found c none = []
listeners_found c (some d) = listeners_of d c

abbrev pub listeners : ℕ → Center → List Listener
listeners event c = listeners_found c (find event c.dispatchers)

-- What the loop shows from a count on.
abbrev pub IsEmitted : (does : ℕ → Call) → List ℕ → ℕ → Center → Emitted → Type 0
IsEmitted does fs ret c e =
    let expected = calls_until does fs in
    (e.called ≡ expected)
    × (e.after ≡ act_all (acts_of does expected) c)
    × (e.result ≡ last_throws does expected (some (ret + length expected)))

act_all-append : (xs ys : List Act) (c : Center) → act_all (xs ++ ys) c ≡ act_all ys (act_all xs c)
unfolding act_all
act_all-append [] ys c = refl
act_all-append (x ∷ xs) ys c = act_all-append xs ys (act x c)

ends-IsEmitted :
    (does : ℕ → Call) (x : Listener) (xs : List Listener) (ret : ℕ) (c : Center) (o : Outcome)
    → (does x.func).outcome ≡ o
    → IsEmitted does
        (funcs xs)
        (suc ret)
        (act_all (does x.func).acts c)
        (call_listeners does xs (suc ret) (act_all (does x.func).acts c))
    → IsEmitted does (funcs (x ∷ xs)) ret c (call_listeners does (x ∷ xs) ret c)
unfolding call_listeners after_call act_all
ends-IsEmitted does x xs ret c returns h v =
    let count : suc ret + length (calls_until does (funcs xs))
        ≡ ret + suc (length (calls_until does (funcs xs))) =
      omega arith in
    let put = act_all-append (does x.func).acts (acts_of does (calls_until does (funcs xs))) c in
    rw h (
      ap (◌∷◌ x.func) v.0,
      v.1 ∙ sym put,
      v.2 ∙ ap (λ n. last_throws does (calls_until does (funcs xs)) (some n)) count,
    )
ends-IsEmitted does x xs ret c interrupts h v =
    let count : suc ret ≡ ret + 1 = omega arith in
    rw h (refl, ap (λ acts. act_all acts c) (sym (append-nil (does x.func).acts)), ap some count)
ends-IsEmitted does x xs ret c throws h v =
    rw h (refl, ap (λ acts. act_all acts c) (sym (append-nil (does x.func).acts)), refl)

call_listeners_lem :
    (does : ℕ → Call) (xs : List Listener) (ret : ℕ) (c : Center)
    → IsEmitted does (funcs xs) ret c (call_listeners does xs ret c)
unfolding call_listeners act_all
call_listeners_lem does [] ret c =
    let count : ret ≡ ret + 0 = omega arith in (refl, refl, ap some count)
call_listeners_lem does (x ∷ xs) ret c =
    ends-IsEmitted does x xs ret c (does x.func).outcome refl
      (call_listeners_lem does xs (suc ret) (act_all (does x.func).acts c))

emit_found_lem :
    (does : ℕ → Call) (c : Center) (o : Option ℕ)
    → IsEmitted does (funcs (listeners_found c o)) 0 c (emit_found does c o)
unfolding emit_found listeners_found act_all
emit_found_lem does c none = (refl, refl, refl)
emit_found_lem does c (some d) = call_listeners_lem does (listeners_of d c) 0 c

-- An emit calls the callbacks that are registered for the event when it starts, in their order, each once, up
-- to the first that interrupts or throws, whatever these calls add to the centre or delete from it;
-- the centre is left as those calls make it; and the emit returns the number of calls, or
-- nothing if the last one throws.
pub emit_event_lem :
    (does : ℕ → Call) (event : ℕ) (c : Center)
    → IsEmitted does (funcs (listeners event c)) 0 c (emit_event does event c)
unfolding emit_event
emit_event_lem does event c = emit_found_lem does c (find event c.dispatchers)
