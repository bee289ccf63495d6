-- ===== src/Util/Notice/History.antt =====
-- Histories of calls on a centre.
use zltool_kit.Kit.{
  ℕ, ◌≤◌, ◌≡◌, refl, sym, ap, ◌∙◌, true, false, List, [], ◌∷◌, ◌==◌, Option, none, some, length,
  get_or, Bool, inl, inr, Bool-cases, arith, pick_true, pick_false,
}
use zltool_kit.Kit.Maps.{find, Entries}
use zltool_kit.Util.Notice.{
  Listener, Center, Act, adds, dels, dels_all, clears, new_center, erase_tag, is_empty,
  get_dispatcher_create, add_listener, del_listener, del_listener_all, clear_all, act, act_all,
}
use zltool_kit.Util.Notice.Emit.{listeners}
use zltool_kit.Util.Notice.Registry.{Registry, no_listeners, expect, expect_all}
use zltool_kit.Util.Notice.Walk.{Heap, IsMap, shown, find-shown}
use zltool_kit.Util.Notice.Sweep.{walk-IsMap, walk_shown}
use zltool_kit.Util.Notice.Refines.{IsWell, view, Follows, add_Follows, del_Follows}

act-Follows : (x : Act) (c : Center) → IsWell c → Follows (act x c) (expect x (view c))
unfolding act add_listener get_dispatcher_create del_listener del_listener_all clear_all
act-Follows (adds new_place place tag event func) c v =
    add_Follows new_place place tag event func c (find event c.dispatchers) refl v
act-Follows (dels tag event) c v = del_Follows tag event c (find event c.dispatchers) refl v
act-Follows (dels_all tag) c v =
    (walk-IsMap tag c.dispatchers c.heap v, λ name. walk_shown tag c.dispatchers c.heap name v)
act-Follows clears c v = (tt, λ name. refl)

expect_same :
    (x : Act) (r s : Registry)
    → ((name : ℕ) → r name ≡ s name)
    → (name : ℕ) → expect x r name ≡ expect x s name
expect_same (adds new_place place tag event func) r s h name = cc (h name)
expect_same (dels tag event) r s h name = cc (h name)
expect_same (dels_all tag) r s h name = ap (erase_tag tag) (h name)
expect_same clears r s h name = refl

acts-Follows :
    (xs : List Act) (c : Center) (r : Registry)
    → Follows c r
    → Follows (act_all xs c) (expect_all xs r)
unfolding act_all
acts-Follows [] c r v = v
acts-Follows (x ∷ xs) c r v =
    let w = act-Follows x c v.0 in
    acts-Follows xs (act x c) (expect x r)
      (w.0, λ name. w.1 name ∙ expect_same x (view c) r v.1 name)

abbrev pub is_none : Option ℕ → Bool
is_none none = true
is_none (some d) = false

full_not_empty : (xs : List Listener) → 1 ≤ length xs → is_empty xs ≡ false
full_not_empty [] h = absurd (omega (arith, h))
full_not_empty (x ∷ xs) h = refl

none_empty :
    (h : Heap) (m : Entries) (event : ℕ)
    → IsMap h m
    → is_none (find event m) ≡ is_empty (shown h m event)
none_empty h [] event v = refl
none_empty h ((name, d) ∷ m) event (new, other, bound, full, v) =
    elim (Bool-cases (name == event)) [
      | inl same ↦
          ap is_none (pick_true _ _ same)
          ∙ sym (full_not_empty (get_or h d []) full)
          ∙ ap is_empty (sym (pick_true _ _ same))
      | inr different ↦
          ap is_none (pick_false _ _ different)
          ∙ none_empty h m event v
          ∙ ap is_empty (sym (pick_false _ _ different))
    ]

-- After any history of calls on a new centre, an emit of any event finds the callbacks that a plain list for
-- each event would hold after the same calls, in the same order; and an event has a dispatcher in the map
-- exactly if it has a callback.
pub act_all_lem :
    (xs : List Act) (event : ℕ)
    → (listeners event (act_all xs new_center) ≡ expect_all xs no_listeners event)
      × (is_none (find event (act_all xs new_center).dispatchers)
          ≡ is_empty (expect_all xs no_listeners event))
act_all_lem xs event =
    let c = act_all xs new_center in
    let v = acts-Follows xs new_center no_listeners (tt, λ name. refl) in
    (
      find-shown c.heap c.dispatchers event ∙ v.1 event,
      none_empty c.heap c.dispatchers event v.0 ∙ ap is_empty (v.1 event),
    )
