-- ===== src/Util/Notice/Registry.antt =====
-- The centre as its clients see it: a list of callbacks for each event.
use zltool_kit.Kit.{ℕ, List, [], ◌∷◌, ◌==◌, if◌then◌else◌}
use zltool_kit.Kit.Maps.{emplace}
use zltool_kit.Util.Notice.{Listener, Act, adds, dels, dels_all, clears, erase_tag}

abbrev pub Registry : Type 0
Registry = ℕ → List Listener

abbrev pub no_listeners : Registry
no_listeners name = []

abbrev pub update : ℕ → (List Listener → List Listener) → Registry → Registry
update event f r name = if event == name then f (r name) else r name

abbrev pub expect : Act → Registry → Registry
expect (adds new_place place tag event func) r =
    update event (emplace place (record { tag = tag; func = func })) r
expect (dels tag event) r = update event (erase_tag tag) r
expect (dels_all tag) r = λ name. erase_tag tag (r name)
expect clears r = no_listeners

abbrev pub expect_all : List Act → Registry → Registry
expect_all [] r = r
expect_all (x ∷ xs) r = expect_all xs (expect x r)
