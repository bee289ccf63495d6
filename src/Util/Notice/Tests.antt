-- ===== src/Util/Notice/Tests.antt =====
-- A centre on short histories.
use zltool_kit.Kit.{ℕ, ◌≡◌, ◌≢◌, arith, refl, List, [], ◌∷◌, some, none}
use zltool_kit.Kit.Maps.{find}
use zltool_kit.Util.Notice.{
  Center, Act, adds, dels, returns, interrupts, throws, Call, new_center, create_dispatcher,
  get_or_create, get_dispatcher_create, dispatcher_add, dispatcher_del, add_listener, del_if_same,
  del_dispatcher, del_found, del_listener, del_walk, del_listener_all, act, act_all, is_empty,
  after_call, call_listeners, emit_found, emit_event, erase_tag,
}
use zltool_kit.Util.Notice.Registry.{no_listeners, expect_all}
use zltool_kit.Util.Notice.Emit.{IsEmitted, listeners, listeners_found, funcs, emit_event_lem}
use zltool_kit.Util.Notice.History.{is_none, act_all_lem}
use zltool_kit.Util.Notice.Refines.{IsWell}
use zltool_kit.Util.Notice.Race.{lost_listener_lem}

-- Two callbacks for event 7 and one for event 8.
abbrev three : Center
three = record {
  heap =
      (record { tag = 1; func = 10 } ∷ record { tag = 2; func = 20 } ∷ [])
      ∷ (record { tag = 1; func = 30 } ∷ [])
      ∷ [];
  dispatchers = (7, 0) ∷ (8, 1) ∷ [];
}

abbrev history : List Act
history = adds 0 0 1 7 10 ∷ adds 1 1 2 7 20 ∷ adds 1 0 1 8 30 ∷ []

history-three : act_all history new_center ≡ three
unfolding act_all act add_listener get_dispatcher_create get_or_create create_dispatcher
    dispatcher_add
history-three = refl

-- The first callback deletes both, and adds itself again.
abbrev does : ℕ → Call
does func = record { acts = dels 1 7 ∷ dels 2 7 ∷ adds 0 0 1 7 func ∷ []; outcome = returns }

three_called : (emit_event does 7 three).called ≡ 10 ∷ 20 ∷ []
unfolding emit_event emit_found call_listeners after_call act_all act add_listener
    get_dispatcher_create get_or_create create_dispatcher dispatcher_add dispatcher_del del_listener
    del_found del_dispatcher del_if_same
three_called = refl

three_result : (emit_event does 7 three).result ≡ some 2
unfolding emit_event emit_found call_listeners after_call act_all act add_listener
    get_dispatcher_create get_or_create create_dispatcher dispatcher_add dispatcher_del del_listener
    del_found del_dispatcher del_if_same
three_result = refl

-- A callback that throws.
three_throws : (emit_event (λ func. record { acts = []; outcome = throws }) 7 three).result ≡ none
unfolding emit_event emit_found call_listeners after_call act_all
three_throws = refl

three_interrupts :
    (emit_event (λ func. record { acts = []; outcome = interrupts }) 7 three).result ≡ some 1
unfolding emit_event emit_found call_listeners after_call act_all
three_interrupts = refl

-- The tag 1 was alone in event 8.
three_swept : (del_listener_all 1 three).dispatchers ≡ (7, 0) ∷ []
unfolding del_listener_all del_walk
three_swept = refl

emit_event_lem_example :
    IsEmitted does (funcs (listeners 7 three)) 0 three (emit_event does 7 three)
emit_event_lem_example = emit_event_lem does 7 three

act_all_lem_example :
    (listeners 7 (act_all history new_center) ≡ expect_all history no_listeners 7)
    × (is_none (find 7 (act_all history new_center).dispatchers)
        ≡ is_empty (expect_all history no_listeners 7))
act_all_lem_example = act_all_lem history 7

three-IsWell : IsWell three
three-IsWell =
    let names : 8 ≢ 7 = ground arith in
    let objects : 1 ≢ 0 = ground arith in
    ((names, tt), (objects, tt), omega arith, omega arith, (tt, tt, omega arith, omega arith, tt))

three_alone : erase_tag 1 (listeners 8 three) ≡ []
unfolding listeners_found
three_alone = refl

-- The only callback of event 8 is deleted while another is being added.
lost_listener_lem_example :
    let got = get_dispatcher_create 0 8 three in
    let after = dispatcher_add 0 got.1 5 50 (del_listener 1 8 got.0) in
    ((emit_event does 8 after).called ≡ []) × ((emit_event does 8 after).result ≡ some 0)
lost_listener_lem_example = lost_listener_lem does 0 0 5 50 1 8 three three-IsWell three_alone
