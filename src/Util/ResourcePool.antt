-- ===== src/Util/ResourcePool.antt =====
-- `ResourcePool_l` of src/Util/ResourcePool.h, with the deleter of its pointers. Objects are numbered in the order
-- in which `_alloc` makes them. `objs` has the back of `_objs` first; `lent` are the objects in use and
-- `freed` those that were deleted. Whether another thread holds `_busy` is an argument, chosen by the
-- environment; the code between `test_and_set` and `clear` is one step.
mod Owned
mod Tests
use zltool_kit.Kit.{
  ℕ, suc, ◌+◌, Bool, true, false, not, ◌&&◌, List, [], ◌∷◌, ◌++◌, leb, ltb, ◌==◌, if◌then◌else◌,
  length,
}
use zltool_kit.Kit.Counts.{erase_one}

pub record Pool : Type 0 where
  pub pool_size : ℕ
  pub objs : List ℕ
  pub next : ℕ
  pub lent : List ℕ
  pub freed : List ℕ
  pub alive : Bool

abbrev pub new_pool : Pool
new_pool = record { pool_size = 8; objs = []; next = 0; lent = []; freed = []; alive = true }

unfoldable pub alloc : Pool → Pool × ℕ
alloc s = (record s { next = suc s.next; lent = s.next ∷ s.lent }, s.next)

-- `getPtr`, by what `_objs` holds.
abbrev pub get_from : List ℕ → Pool → Pool × ℕ
get_from [] s = alloc s
get_from (x ∷ xs) s = (record s { objs = xs; lent = x ∷ s.lent }, x)

unfoldable pub get_ptr : Bool → Pool → Pool × ℕ
unfolding alloc
get_ptr is_busy s = if is_busy then alloc s else get_from s.objs s

unfoldable pub delete : ℕ → Pool → Pool
delete x s = record s { lent = erase_one x s.lent; freed = x ∷ s.freed }

unfoldable pub recycle : Bool → ℕ → Pool → Pool
unfolding delete
recycle is_busy x s =
    let kept = record s { lent = erase_one x s.lent; objs = x ∷ s.objs } in
    if is_busy then delete x s else if leb s.pool_size (length s.objs) then delete x s else kept

-- The deleter of `obtain`, after its callback; that of `obtain2` is the case of no `quit`.
unfoldable pub release : Bool → Bool → ℕ → Pool → Pool
unfolding recycle delete
release quit is_busy x s = if s.alive && not quit then recycle is_busy x s else delete x s

unfoldable pub set_size : ℕ → Pool → Pool
set_size n s = record s { pool_size = n }

-- The destructor.
unfoldable pub destroy_pool : Pool → Pool
destroy_pool s = record s { objs = []; freed = s.objs ++ s.freed; alive = false }
