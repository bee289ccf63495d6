-- ===== src/Ring/Storage.antt =====
-- `_RingStorage`: frames in groups that start with a key frame, under a limit on frames and groups.
-- A `List` of the source is a list here, its front first. A frame is a pair of its key flag and its
-- value. Sums and differences of sizes are those of `size_t`.
pub mod Laws
mod Tests
use zltool_kit.Kit.{
  ℕ, zero, suc, ◌+◌, ◌-◌, Bool, true, false, ◌&&◌, not, List, [], ◌∷◌, ◌++◌, ltb, if◌then◌else◌,
  length, drop, concat,
}
use zltool_kit.Kit.Words.{u64, sub64}

abbrev pub ring_min_size : ℕ
ring_min_size = 32

abbrev pub Gop : Type 0 → Type 0
Gop T = List (Bool × T)

pub record Storage (T : Type 0) : Type 0 where
  pub started : Bool
  pub have_idr : Bool
  pub size : ℕ
  pub max_size : ℕ
  pub max_gop_size : ℕ
  pub cache : List (Gop T)

module _ {T : Type 0} where
  unfoldable pub clear_cache : Storage T → Storage T
  clear_cache s = record s { size = 0; have_idr = false; cache = [] ∷ [] }

  -- The constructor; `_have_idr` and `_size` are first written by `clearCache`.
  unfoldable pub new_storage : ℕ → ℕ → Storage T
  new_storage max_size max_gop_size = record {
    started = false;
    have_idr = false;
    size = 0;
    max_size = if ltb max_size ring_min_size then ring_min_size else max_size;
    max_gop_size = max_gop_size;
    cache = [] ∷ [];
  }

  -- `popFrontGop` on the cache; the list is never left empty.
  abbrev pub or_fresh : List (Gop T) → List (Gop T)
  or_fresh [] = [] ∷ []
  or_fresh (g ∷ gs) = g ∷ gs

  abbrev pub pop_gop : List (Gop T) → List (Gop T)
  pop_gop [] = []
  pop_gop (g ∷ gs) = or_fresh gs

  abbrev pub front_size : List (Gop T) → ℕ
  front_size [] = 0
  front_size (g ∷ gs) = length g

  unfoldable pub pop_front_gop : Storage T → Storage T
  pop_front_gop s = record s { size = sub64 s.size (front_size s.cache); cache = pop_gop s.cache }

  -- `_data_cache.back().empty()`, and `emplace_back` on the last group.
  abbrev pub back_is_empty : List (Gop T) → Bool
  back_is_empty [] = true
  back_is_empty ([] ∷ []) = true
  back_is_empty ((x ∷ g) ∷ []) = false
  back_is_empty (g ∷ h ∷ gs) = back_is_empty (h ∷ gs)

  abbrev pub push_back : Bool × T → List (Gop T) → List (Gop T)
  push_back x [] = []
  push_back x (g ∷ []) = (g ++ x ∷ []) ∷ []
  push_back x (g ∷ h ∷ gs) = g ∷ push_back x (h ∷ gs)

  -- A key frame opens a group, and the oldest group goes if there are too many.
  unfoldable pub open_gop : Storage T → Storage T
  open_gop s =
      let opened = record s {
        have_idr = true;
        started = true;
        cache = if back_is_empty s.cache then s.cache else s.cache ++ [] ∷ [];
      } in
      if ltb s.max_gop_size (length opened.cache) then pop_front_gop opened else opened

  -- The loop over the old groups; what is left of the size, and of the cache.
  unfoldable pub drop_old : ℕ → ℕ → List (Gop T) → ℕ × List (Gop T)
  drop_old max_size size [] = (size, [])
  drop_old max_size size (g ∷ []) = (size, g ∷ [])
  drop_old max_size size (g ∷ h ∷ gs) =
      let rest = drop_old max_size (sub64 size (length g)) (h ∷ gs) in
      if ltb max_size size then rest else (size, g ∷ h ∷ gs)

  unfoldable pub trim : Storage T → Storage T
  trim s =
      let (size, cache) = drop_old s.max_size s.size s.cache in
      let dropped = record s { size = size; cache = cache } in
      if ltb s.max_size size then clear_cache dropped else dropped

  unfoldable pub append_frame : Bool × T → Storage T → Storage T
  append_frame x s =
      let grown = record s { size = u64 (s.size + 1); cache = push_back x s.cache } in
      if ltb s.max_size grown.size then trim grown else grown

  -- Without a key frame after a reset, nothing is kept.
  unfoldable pub write : T → Bool → Storage T → Storage T
  write x is_key s =
      let opened = if is_key then open_gop s else s in
      if not opened.have_idr && opened.started then opened else append_frame (is_key, x) opened

  -- `_RingReader::flushGop`: the frames that a reader of at most `max_gop_size` groups is given.
  unfoldable pub flush_gop : ℕ → Storage T → Gop T
  flush_gop max_gop_size s = concat (drop (length s.cache - max_gop_size) s.cache)
