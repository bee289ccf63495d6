-- ===== src/Util/Notice/Race.antt =====
-- addListener between its two halves: the dispatcher is looked up under the centre's lock and filled
-- under its own.
use zltool_kit.Kit.{
  ℕ, ◌≡◌, refl, ap, ◌∙◌, true, List, [], ◌∷◌, Option, none, some, length, set, ==_self, pick_true,
}
use zltool_kit.Kit.Maps.{
  find, erase, IsUnique, find-none, find-erase, IsUnique-emplace, find-emplace, Entries,
}
use zltool_kit.Util.Notice.{
  Listener, Center, Call, erase_tag, is_empty, create_dispatcher, get_or_create,
  get_dispatcher_create, dispatcher_add, dispatcher_del, del_if_same, del_dispatcher, del_found,
  del_listener, listeners_of, emit_found, emit_event,
}
use zltool_kit.Util.Notice.Emit.{listeners, listeners_found}
use zltool_kit.Util.Notice.Walk.{IsMap}
use zltool_kit.Util.Notice.Create.{get_or-append_length}
use zltool_kit.Util.Notice.Refines.{IsWell}

IsMap-IsUnique : (h : List (List Listener)) (m : Entries) → IsMap h m → IsUnique m
IsMap-IsUnique h [] v = tt
IsMap-IsUnique h ((name, d) ∷ m) v = (v.0, IsMap-IsUnique h m v.4)

-- Between the halves, a call empties the dispatcher that was looked up.
lost_from :
    (place tag func gone event d : ℕ) (c : Center)
    → find event c.dispatchers ≡ some d
    → IsUnique c.dispatchers
    → erase_tag gone (listeners_of d c) ≡ []
    → find event (dispatcher_add place d tag func (del_listener gone event c)).dispatchers ≡ none
unfolding dispatcher_add dispatcher_del del_listener del_found del_dispatcher del_if_same
lost_from place tag func gone event d c x u e =
    let empty : is_empty (erase_tag gone (listeners_of d c)) ≡ true = ap is_empty e in
    let done : del_listener gone event c ≡ record c {
      heap = set c.heap d (erase_tag gone (listeners_of d c));
      dispatchers = erase event c.dispatchers;
    } =
      ap (del_found gone event c) x
      ∙ pick_true _ _ empty
      ∙ ap (del_if_same event d (dispatcher_del d gone c).0) x
      ∙ pick_true _ _ (==_self d) in
    ap (λ z. find event z.dispatchers) done ∙ find-erase c.dispatchers event u

lost_got :
    (new_place place tag func gone event : ℕ) (c : Center) (o : Option ℕ)
    → find event c.dispatchers ≡ o
    → IsWell c
    → erase_tag gone (listeners_found c o) ≡ []
    → find event
        (dispatcher_add place
          (get_or_create new_place event c o).1
          tag
          func
          (del_listener gone event (get_or_create new_place event c o).0)).dispatchers
      ≡ none
unfolding get_or_create create_dispatcher listeners_found
lost_got new_place place tag func gone event c none x v e =
    let n = find-none c.dispatchers event x in
    lost_from place tag func gone event (length c.heap) (create_dispatcher new_place event c)
      (find-emplace new_place event (length c.heap) c.dispatchers n)
      (IsUnique-emplace new_place event (length c.heap) c.dispatchers n
        (IsMap-IsUnique c.heap c.dispatchers v))
      (ap (erase_tag gone) (get_or-append_length c.heap [] []))
lost_got new_place place tag func gone event c (some d) x v e =
    lost_from place tag func gone event d c x (IsMap-IsUnique c.heap c.dispatchers v) e

-- If another thread's delListener for the event, which leaves it no callback, runs between the two halves of
-- addListener, the new callback is lost: an emit of the event calls nobody and returns 0.
pub lost_listener_lem :
    (does : ℕ → Call) (new_place place tag func gone event : ℕ) (c : Center)
    → IsWell c
    → erase_tag gone (listeners event c) ≡ []
    → let got = get_dispatcher_create new_place event c in
      let after = dispatcher_add place got.1 tag func (del_listener gone event got.0) in
      ((emit_event does event after).called ≡ []) × ((emit_event does event after).result ≡ some 0)
unfolding get_dispatcher_create emit_event emit_found
lost_listener_lem does new_place place tag func gone event c v e =
    let got = get_dispatcher_create new_place event c in
    let after = dispatcher_add place got.1 tag func (del_listener gone event got.0) in
    let x = lost_got new_place place tag func gone event c (find event c.dispatchers) refl v e in
    (ap (λ o. (emit_found does after o).called) x, ap (λ o. (emit_found does after o).result) x)
