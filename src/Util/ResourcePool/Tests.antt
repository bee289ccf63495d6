-- ===== src/Util/ResourcePool/Tests.antt =====
-- A pool on a short history.
use zltool_kit.Kit.{◌≡◌, refl, false, [], ◌∷◌, arith}
use mathlib.Core.Path.{subst}
use zltool_kit.Util.ResourcePool.{Pool, new_pool, alloc, get_ptr, release, recycle}
use zltool_kit.Kit.Counts.{count}
use zltool_kit.Util.ResourcePool.Owned.{
  IsOwned, Uses, gets, releases, unused, then_use, get_ptr_lem,
}

-- One object is lent, and comes back to the pool.
abbrev lent_one : Pool
lent_one = record new_pool { next = 1; lent = 0 ∷ [] }

abbrev back_again : Pool
back_again = record new_pool { next = 1; objs = 0 ∷ [] }

lent_one-get_ptr : (get_ptr false new_pool).0 ≡ lent_one
unfolding get_ptr alloc
lent_one-get_ptr = refl

back_again-release : release false false 0 lent_one ≡ back_again
unfolding release recycle
back_again-release = refl

abbrev uses : Uses new_pool back_again
uses = subst (Uses new_pool) back_again-release (
    then_use lent_one (release false false 0 lent_one)
      (subst (Uses new_pool) lent_one-get_ptr
        (then_use new_pool (get_ptr false new_pool).0 unused (gets false refl)))
      (releases false false 0 (omega arith)))

get_ptr_lem_example :
    IsOwned back_again
    × (count (get_ptr false back_again).1 [] ≡ 0)
    × (count (get_ptr false back_again).1 [] ≡ 0)
get_ptr_lem_example = get_ptr_lem back_again false uses
