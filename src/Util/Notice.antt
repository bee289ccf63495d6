-- ===== src/Util/Notice.antt =====
-- src/Util/NoticeCenter.h: EventDispatcher and NoticeCenter. An event's name, a tag and a callback
-- are numbers. The dispatchers are shared objects: they live in a heap, which the centre's map and
-- the threads that looked one up refer to by position. A hash map keeps its entries in an order of its
-- own: `place` is where an emplaced entry goes.
use zltool_kit.Kit.{
  ℕ, zero, suc, Bool, true, false, List, [], ◌∷◌, ◌++◌, Option, none, some, ◌==◌, if◌then◌else◌,
  length, get_or, set,
}
use zltool_kit.Kit.Maps.{emplace, find, erase}
pub mod Registry
mod Walk
mod Change
mod Create
mod Sweep
pub mod Refines
pub mod Emit
pub mod History
pub mod Race
mod Tests

pub record Listener : Type 0 where
  tag : ℕ
  func : ℕ

-- A dispatcher is its `_mapListener`.
pub record Center : Type 0 where
  heap : List (List Listener)
  dispatchers : List (ℕ × ℕ)

abbrev pub new_center : Center
new_center = record { heap = []; dispatchers = [] }

abbrev pub erase_tag : ℕ → List Listener → List Listener
erase_tag tag [] = []
erase_tag tag (x ∷ xs) = let rest = erase_tag tag xs in if x.tag == tag then rest else x ∷ rest

abbrev pub is_empty {ℓ} : {A : Type ℓ} → List A → Bool
is_empty [] = true
is_empty (x ∷ xs) = false

abbrev pub listeners_of : ℕ → Center → List Listener
listeners_of d c = get_or c.heap d []

-- The creating half of `getDispatcher`: a new object, and an entry for it.
unfoldable pub create_dispatcher : (place event : ℕ) → Center → Center
create_dispatcher place event c = record {
  heap = c.heap ++ ([] ∷ []);
  dispatchers = emplace place (event, length c.heap) c.dispatchers;
}

unfoldable pub get_or_create : (place event : ℕ) → Center → Option ℕ → Center × ℕ
get_or_create place event c (some d) = (c, d)
get_or_create place event c none = (create_dispatcher place event c, length c.heap)

unfoldable pub get_dispatcher_create : (place event : ℕ) → Center → Center × ℕ
get_dispatcher_create place event c = get_or_create place event c (find event c.dispatchers)

unfoldable pub dispatcher_add : (place d tag func : ℕ) → Center → Center
dispatcher_add place d tag func c = record c {
  heap = set c.heap d (emplace place (record { tag = tag; func = func }) (listeners_of d c));
}

unfoldable pub dispatcher_del : (d tag : ℕ) → Center → Center × Bool
dispatcher_del d tag c =
    let left = erase_tag tag (listeners_of d c) in
    (record c { heap = set c.heap d left }, is_empty left)

unfoldable pub add_listener : (new_place place tag event func : ℕ) → Center → Center
add_listener new_place place tag event func c =
    let got = get_dispatcher_create new_place event c in dispatcher_add place got.1 tag func got.0

unfoldable pub del_if_same : (event d : ℕ) → Center → Option ℕ → Center
del_if_same event d c none = c
del_if_same event d c (some found) =
    if d == found then record c { dispatchers = erase event c.dispatchers } else c

unfoldable pub del_dispatcher : (event d : ℕ) → Center → Center
del_dispatcher event d c = del_if_same event d c (find event c.dispatchers)

unfoldable pub del_found : (tag event : ℕ) → Center → Option ℕ → Center
del_found tag event c none = c
del_found tag event c (some d) =
    let done = dispatcher_del d tag c in if done.1 then del_dispatcher event d done.0 else done.0

unfoldable pub del_listener : (tag event : ℕ) → Center → Center
del_listener tag event c = del_found tag event c (find event c.dispatchers)

-- The loop of `delListener(tag)` over the map: an entry stays unless its dispatcher got empty.
unfoldable pub del_walk : (tag : ℕ) → List (ℕ × ℕ) → List (List Listener) → Center
del_walk tag [] heap = record { heap = heap; dispatchers = [] }
del_walk tag ((name, d) ∷ m) heap =
    let left = erase_tag tag (get_or heap d []) in
    let rest = del_walk tag m (set heap d left) in
    if is_empty left then rest else record rest { dispatchers = (name, d) ∷ rest.dispatchers }

unfoldable pub del_listener_all : (tag : ℕ) → Center → Center
del_listener_all tag c = del_walk tag c.dispatchers c.heap

unfoldable pub clear_all : Center → Center
clear_all c = record c { dispatchers = [] }

-- What a callback may do to the centre, and how it ends: InterruptException is caught, another
-- exception is not.
pub data Act : Type 0 where
  adds : (new_place place tag event func : ℕ) → Act
  dels : (tag event : ℕ) → Act
  dels_all : (tag : ℕ) → Act
  clears : Act

pub data Outcome : Type 0 where
  returns : Outcome
  interrupts : Outcome
  throws : Outcome

pub record Call : Type 0 where
  acts : List Act
  outcome : Outcome

unfoldable pub act : Act → Center → Center
act (adds new_place place tag event func) c = add_listener new_place place tag event func c
act (dels tag event) c = del_listener tag event c
act (dels_all tag) c = del_listener_all tag c
act clears c = clear_all c

unfoldable pub act_all : List Act → Center → Center
act_all [] c = c
act_all (x ∷ xs) c = act_all xs (act x c)

-- What an emit leads to: the callbacks called, and the number returned, or none if one throws.
pub record Emitted : Type 0 where
  after : Center
  called : List ℕ
  result : Option ℕ

-- The loop goes on behind a callback that returns, with what `rest` is then.
unfoldable pub after_call : Outcome → Emitted → ℕ → Center → Emitted
after_call returns rest ret c = rest
after_call interrupts rest ret c = record { after = c; called = []; result = some (suc ret) }
after_call throws rest ret c = record { after = c; called = []; result = none }

unfoldable pub call_listeners : (does : ℕ → Call) → List Listener → ℕ → Center → Emitted
call_listeners does [] ret c = record { after = c; called = []; result = some ret }
call_listeners does (x ∷ xs) ret c =
    let left = act_all (does x.func).acts c in
    let rest = call_listeners does xs (suc ret) left in
    let e = after_call (does x.func).outcome rest ret left in
    record e { called = x.func ∷ e.called }

unfoldable pub emit_found : (does : ℕ → Call) → Center → Option ℕ → Emitted
emit_found does c none = record { after = c; called = []; result = (some 0) }
emit_found does c (some d) = call_listeners does (listeners_of d c) 0 c

-- `emitEvent_l`: the callbacks run on a copy of the dispatcher's map.
unfoldable pub emit_event : (does : ℕ → Call) → ℕ → Center → Emitted
emit_event does event c = emit_found does c (find event c.dispatchers)
