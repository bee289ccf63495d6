-- ===== src/Util/ResourcePool/Owned.antt =====
-- Each object of a pool is in one place.
use zltool_kit.Kit.{
  ℕ, suc, ◌+◌, ◌≤◌, ◌≡◌, refl, sym, ap, Bool, true, false, not, ◌&&◌, List, [], ◌∷◌, leb, ltb,
  if◌then◌else◌, length, inl, inr, Bool-cases, arith, pick_true, pick_false,
}
use zltool_kit.Kit.Counts.{is_it, count, count-append, count-erase_one}
use mathlib.Core.Path.{subst}
use zltool_kit.Util.ResourcePool.{
  Pool, new_pool, alloc, get_from, get_ptr, delete, recycle, release, set_size, destroy_pool,
}

abbrev pub made : ℕ → ℕ → ℕ
made i n = if ltb i n then 1 else 0

-- An object that was made is kept, lent or deleted: one of these, and once.
abbrev pub IsOwned : Pool → Type 0
IsOwned s = (i : ℕ) → count i s.objs + count i s.lent + count i s.freed ≡ made i s.next

made_next : (i n : ℕ) → is_it i n + made i n ≡ made i (suc n)
made_next i n = ground arith

alloc-IsOwned : (s : Pool) → IsOwned s → IsOwned (alloc s).0
unfolding alloc
alloc-IsOwned s v i = omega (arith, v i, made_next i s.next)

get_from-IsOwned :
    (s : Pool) (objs : List ℕ) → s.objs ≡ objs → IsOwned s → IsOwned (get_from objs s).0
get_from-IsOwned s [] e v i = alloc-IsOwned s v i
get_from-IsOwned s (x ∷ xs) e v i = omega (arith, v i, ap (count i) e)

delete-IsOwned : (x : ℕ) (s : Pool) → 1 ≤ count x s.lent → IsOwned s → IsOwned (delete x s)
unfolding delete
delete-IsOwned x s h v i = omega (arith, v i, count-erase_one i x s.lent h)

recycle-IsOwned :
    (is_busy : Bool) (x : ℕ) (s : Pool)
    → 1 ≤ count x s.lent
    → IsOwned s
    → IsOwned (recycle is_busy x s)
unfolding recycle
recycle-IsOwned true x s h v = delete-IsOwned x s h v
recycle-IsOwned false x s h v = elim (Bool-cases (leb s.pool_size (length s.objs))) [
  | inl full ↦ subst IsOwned (sym (pick_true _ _ full)) (delete-IsOwned x s h v)
  | inr free ↦
      subst IsOwned (sym (pick_false _ _ free))
        (λ i. omega (arith, v i, count-erase_one i x s.lent h))
]

release-IsOwned :
    (quit is_busy : Bool) (x : ℕ) (s : Pool)
    → 1 ≤ count x s.lent
    → IsOwned s
    → IsOwned (release quit is_busy x s)
unfolding release
release-IsOwned quit is_busy x s h v = elim (Bool-cases (s.alive && not quit)) [
  | inl back ↦ subst IsOwned (sym (pick_true _ _ back)) (recycle-IsOwned is_busy x s h v)
  | inr gone ↦ subst IsOwned (sym (pick_false _ _ gone)) (delete-IsOwned x s h v)
]

get_ptr-IsOwned : (is_busy : Bool) (s : Pool) → IsOwned s → IsOwned (get_ptr is_busy s).0
unfolding get_ptr
get_ptr-IsOwned true s v = alloc-IsOwned s v
get_ptr-IsOwned false s v = get_from-IsOwned s s.objs refl v

destroy_pool-IsOwned : (s : Pool) → IsOwned s → IsOwned (destroy_pool s)
unfolding destroy_pool
destroy_pool-IsOwned s v i = omega (arith, v i, count-append i s.objs s.freed)

-- What may happen to a pool: an object is released only while it is lent.
pub data Use (s : Pool) : Pool → Type 0 where
  gets : (is_busy : Bool) → s.alive ≡ true → Use s (get_ptr is_busy s).0
  releases : (quit is_busy : Bool) (x : ℕ) → 1 ≤ count x s.lent → Use s (release quit is_busy x s)
  resizes : (n : ℕ) → Use s (set_size n s)
  destroys : s.alive ≡ true → Use s (destroy_pool s)

pub data Uses (s : Pool) : Pool → Type 0 where
  unused : Uses s s
  then_use : (t u : Pool) → Uses s t → Use t u → Uses s u

step-IsOwned : (s : Pool) {t : Pool} → IsOwned s → Use s t → IsOwned t
unfolding set_size
step-IsOwned s v (gets is_busy a) = get_ptr-IsOwned is_busy s v
step-IsOwned s v (releases quit is_busy x h) = release-IsOwned quit is_busy x s h v
step-IsOwned s v (resizes n) = v
step-IsOwned s v (destroys a) = destroy_pool-IsOwned s v

history-IsOwned : (s : Pool) {t : Pool} → IsOwned s → Uses s t → IsOwned t
history-IsOwned s v unused = v
history-IsOwned s v (then_use t u xs x) = step-IsOwned t (history-IsOwned s v xs) x

new_pool-IsOwned : IsOwned new_pool
new_pool-IsOwned i = ground arith

get_from-fresh :
    (s : Pool) (objs : List ℕ)
    → s.objs ≡ objs
    → IsOwned s
    → (count (get_from objs s).1 s.lent ≡ 0) × (count (get_from objs s).1 s.freed ≡ 0)
unfolding alloc
get_from-fresh s [] e v =
    let none_made : made s.next s.next ≡ 0 = ground arith in
    (omega (arith, v s.next, none_made), omega (arith, v s.next, none_made))
get_from-fresh s (x ∷ xs) e v =
    let at_most : made x s.next ≤ 1 = ground arith in
    let itself : is_it x x ≡ 1 = ground arith in
    (
      omega (arith, v x, ap (count x) e, at_most, itself),
      omega (arith, v x, ap (count x) e, at_most, itself),
    )

-- After any history of a new pool, with other threads holding the flag at any of its calls: every object that was
-- made is in exactly one place, kept, lent or deleted; and the object that `getPtr` hands out next is
-- neither in use nor deleted.
pub get_ptr_lem :
    (s : Pool) (is_busy : Bool)
    → Uses new_pool s
    → IsOwned s
      × (count (get_ptr is_busy s).1 s.lent ≡ 0)
      × (count (get_ptr is_busy s).1 s.freed ≡ 0)
unfolding get_ptr
get_ptr_lem s true x =
    let v = history-IsOwned new_pool new_pool-IsOwned x in
    let none_made : made s.next s.next ≡ 0 = ground arith in
    (v, omega (arith, v s.next, none_made), omega (arith, v s.next, none_made))
get_ptr_lem s false x =
    let v = history-IsOwned new_pool new_pool-IsOwned x in
    let (a, b) = get_from-fresh s s.objs refl v in (v, a, b)
