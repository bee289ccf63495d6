-- ===== src/Util/Notice/Refines.antt =====
-- Each operation of the centre does to its map what it promises to do to the registry.
use zltool_kit.Kit.{
  ℕ, ◌≤◌, ◌≡◌, sym, ap, ◌∙◌, false, List, [], ◌==◌, if◌then◌else◌, Option, none, some, length,
  get_or, set, inl, inr, Bool-cases, ==_self, arith, pick_true, pick_false,
}
use zltool_kit.Kit.Maps.{emplace, find, erase, find-none, emplace_nil, length-emplace}
use mathlib.Core.Path.{subst}
use zltool_kit.Util.Notice.{
  Listener, Center, erase_tag, is_empty, create_dispatcher, get_or_create, dispatcher_add,
  dispatcher_del, del_if_same, del_dispatcher, del_found,
}
use zltool_kit.Util.Notice.Registry.{Registry, update}
use zltool_kit.Util.Notice.Walk.{IsMap, shown, shown_new}
use zltool_kit.Util.Notice.Change.{
  find-get_or, found-IsChanged, found-IsMap, erased-IsMap, erased-IsChanged,
}
use zltool_kit.Util.Notice.Create.{first_listener, created-IsMap, created_shown}
use zltool_kit.Util.Notice.Sweep.{full_length, empty_nil}

abbrev pub IsWell : Center → Type 0
IsWell c = IsMap c.heap c.dispatchers

abbrev pub view : Center → Registry
view c = shown c.heap c.dispatchers

abbrev pub Follows : Center → Registry → Type 0
Follows c r = IsWell c × ((name : ℕ) → view c name ≡ r name)

found_update :
    (event : ℕ) (f : List Listener → List Listener) (r : Registry) (l : List Listener) (name : ℕ)
    → r event ≡ l
    → (if event == name then f l else r name) ≡ update event f r name
found_update event f r l name h = elim (Bool-cases (event == name)) [
  | inl same ↦
      let known : event ≡ name = ground arith in
      pick_true _ _ same ∙ ap f (sym h ∙ ap r known) ∙ sym (pick_true (f (r name)) (r name) same)
  | inr different ↦ pick_false _ _ different ∙ sym (pick_false (f (r name)) (r name) different)
]

add_found :
    (place event tag func d : ℕ) (c : Center)
    → find event c.dispatchers ≡ some d
    → IsWell c
    → Follows
        (dispatcher_add place d tag func c)
        (update event (emplace place (record { tag = tag; func = func })) (view c))
unfolding dispatcher_add
add_found place event tag func d c x v =
    let fresh : Listener = record { tag = tag; func = func } in
    let l = get_or c.heap d [] in
    let some_left : 1 ≤ length (emplace place fresh l) =
      omega (arith, length-emplace place fresh l) in
    (
      found-IsMap c.heap c.dispatchers event d (emplace place fresh l) x some_left v,
      λ name.
          found-IsChanged c.heap c.dispatchers event d (emplace place fresh l) x v name
          ∙ found_update event (emplace place fresh) (view c) l name
              (find-get_or c.heap c.dispatchers event d x),
    )

add_created :
    (new_place place tag event func : ℕ) (c : Center)
    → find event c.dispatchers ≡ none
    → IsWell c
    → Follows
        (dispatcher_add place (length c.heap) tag func (create_dispatcher new_place event c))
        (update event (emplace place (record { tag = tag; func = func })) (view c))
unfolding dispatcher_add create_dispatcher
add_created new_place place tag event func c x v =
    let fresh : Listener = record { tag = tag; func = func } in
    let new = find-none c.dispatchers event x in
    let m = emplace new_place (event, length c.heap) c.dispatchers in
    (
      subst (λ h. IsMap h m) (sym (first_listener c.heap place fresh))
          (created-IsMap c.heap new_place event c.dispatchers fresh new v),
      λ name.
          ap (λ h. shown h m name) (first_listener c.heap place fresh)
          ∙ created_shown c.heap new_place event c.dispatchers fresh name new v
          ∙ ap (λ l. if event == name then l else view c name) (sym (emplace_nil place fresh))
          ∙ found_update event (emplace place fresh) (view c) [] name
              (shown_new c.heap c.dispatchers event new),
    )

pub add_Follows :
    (new_place place tag event func : ℕ) (c : Center) (o : Option ℕ)
    → find event c.dispatchers ≡ o
    → IsWell c
    → Follows
        (dispatcher_add place
          (get_or_create new_place event c o).1
          tag
          func
          (get_or_create new_place event c o).0)
        (update event (emplace place (record { tag = tag; func = func })) (view c))
unfolding get_or_create
add_Follows new_place place tag event func c none x v =
    add_created new_place place tag event func c x v
add_Follows new_place place tag event func c (some d) x v = add_found place event tag func d c x v

del_kept :
    (tag event d : ℕ) (c : Center)
    → find event c.dispatchers ≡ some d
    → is_empty (erase_tag tag (get_or c.heap d [])) ≡ false
    → IsWell c
    → Follows (dispatcher_del d tag c).0 (update event (erase_tag tag) (view c))
unfolding dispatcher_del
del_kept tag event d c x e v =
    let l = get_or c.heap d [] in
    (
      found-IsMap c.heap c.dispatchers event d (erase_tag tag l) x (full_length (erase_tag tag l) e)
          v,
      λ name.
          found-IsChanged c.heap c.dispatchers event d (erase_tag tag l) x v name
          ∙ found_update event (erase_tag tag) (view c) l name
              (find-get_or c.heap c.dispatchers event d x),
    )

del_gone :
    (tag event d : ℕ) (c : Center)
    → find event c.dispatchers ≡ some d
    → erase_tag tag (get_or c.heap d []) ≡ []
    → IsWell c
    → Follows
        (del_dispatcher event d (dispatcher_del d tag c).0)
        (update event (erase_tag tag) (view c))
unfolding dispatcher_del del_dispatcher del_if_same
del_gone tag event d c x e v =
    let l = get_or c.heap d [] in
    let h = set c.heap d (erase_tag tag l) in
    let done : del_if_same event d (dispatcher_del d tag c).0 (find event c.dispatchers)
        ≡ record c { heap = h; dispatchers = erase event c.dispatchers } =
      ap (del_if_same event d (dispatcher_del d tag c).0) x ∙ pick_true _ _ (==_self d) in
    subst (λ z. Follows z (update event (erase_tag tag) (view c))) (sym done)
      (
        erased-IsMap c.heap c.dispatchers event d (erase_tag tag l) x v,
        λ name.
            erased-IsChanged c.heap c.dispatchers event d (erase_tag tag l) x v name
            ∙ ap (λ z. if event == name then z else view c name) (sym e)
            ∙ found_update event (erase_tag tag) (view c) l name
                (find-get_or c.heap c.dispatchers event d x),
      )

pub del_Follows :
    (tag event : ℕ) (c : Center) (o : Option ℕ)
    → find event c.dispatchers ≡ o
    → IsWell c
    → Follows (del_found tag event c o) (update event (erase_tag tag) (view c))
unfolding del_found dispatcher_del
del_Follows tag event c none x v = (
  v,
  λ name.
      let gone = shown_new c.heap c.dispatchers event (find-none c.dispatchers event x) in
      untouched event (erase_tag tag) (view c) name (ap (erase_tag tag) gone ∙ sym gone),
)
  where
    untouched :
        (event : ℕ) (f : List Listener → List Listener) (r : Registry) (name : ℕ)
        → f (r event) ≡ r event
        → r name ≡ update event f r name
    untouched event f r name h = elim (Bool-cases (event == name)) [
      | inl same ↦
          let known : event ≡ name = ground arith in
          subst (λ k. r k ≡ f (r k)) known (sym h) ∙ sym (pick_true (f (r name)) (r name) same)
      | inr different ↦ sym (pick_false (f (r name)) (r name) different)
    ]
del_Follows tag event c (some d) x v =
    let left = erase_tag tag (get_or c.heap d []) in
    elim (Bool-cases (is_empty left)) [
      | inl e ↦
          subst (λ z. Follows z (update event (erase_tag tag) (view c))) (sym (pick_true _ _ e))
            (del_gone tag event d c x (empty_nil left e) v)
      | inr e ↦
          subst (λ z. Follows z (update event (erase_tag tag) (view c))) (sym (pick_false _ _ e))
            (del_kept tag event d c x e v)
    ]
