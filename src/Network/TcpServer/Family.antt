-- ===== src/Network/TcpServer/Family.antt =====
-- The servers of several pollers: the main server, and a clone for each other poller of the pool. A server is known by its
-- poller.
use zltool_kit.Kit.{
  ℕ, ◌≤◌, ◌≡◌, ◌≢◌, refl, ap, ◌∙◌, Bool, true, List, [], ◌∷◌, Option, none, some, ◌==◌,
  if◌then◌else◌, inl, inr, Bool-cases, arith, pick_true, pick_false,
}
use mathlib.Core.Path.{subst}
use zltool_kit.Kit.Counts.{count}

-- `_cloned_server` after the loop of `start_l` over the pool.
unfoldable pub clones : (main : ℕ) → List ℕ → List ℕ
clones main [] = []
clones main (p ∷ ps) = let rest = clones main ps in if p == main then rest else p ∷ rest

abbrev pub find_clone : ℕ → List ℕ → Option ℕ
find_clone p [] = none
find_clone p (q ∷ qs) = let rest = find_clone p qs in if q == p then some q else rest

abbrev pub or_server : Option ℕ → ℕ → ℕ
or_server none p = p
or_server (some q) p = q

-- `getServer` of the server of the poller `self`: a clone asks its parent, if it can lock it; its own map
-- of clones is empty.
unfoldable pub get_server : (locked : Bool) → (main self : ℕ) → (cloned : List ℕ) → ℕ → ℕ
get_server locked main self cloned p =
    if self == main
    then or_server (find_clone p cloned) main
    else if locked
    then or_server (find_clone p cloned) main
    else or_server (find_clone p []) self

clones_other :
    (main p : ℕ) (pool : List ℕ)
    → p ≢ main
    → 1 ≤ count p pool
    → find_clone p (clones main pool) ≡ some p
unfolding clones
clones_other main p [] apart h = absurd (omega (arith, h))
clones_other main p (q ∷ qs) apart h = elim (Bool-cases (q == main)) [
  | inl same ↦
      let more : 1 ≤ count p qs = ground (arith, h, apart, same) in
      ap (find_clone p) (pick_true _ _ same) ∙ clones_other main p qs apart more
  | inr kept ↦ ap (find_clone p) (pick_false _ _ kept) ∙ elim (Bool-cases (q == p)) [
    | inl here ↦ let e : q ≡ p = ground (arith, here) in pick_true _ _ here ∙ ap some e
    | inr there ↦
        let more : 1 ≤ count p qs = ground (arith, h, there) in
        pick_false _ _ there ∙ clones_other main p qs apart more
  ]
]

clones_main : (main : ℕ) (pool : List ℕ) → find_clone main (clones main pool) ≡ none
unfolding clones
clones_main main [] = refl
clones_main main (q ∷ qs) = elim (Bool-cases (q == main)) [
  | inl same ↦ ap (find_clone main) (pick_true _ _ same) ∙ clones_main main qs
  | inr kept ↦
      ap (find_clone main) (pick_false _ _ kept) ∙ pick_false _ _ kept ∙ clones_main main qs
]

find-clones :
    (main p : ℕ) (pool : List ℕ)
    → 1 ≤ count p pool
    → or_server (find_clone p (clones main pool)) main ≡ p
find-clones main p pool h = elim (Bool-cases (p == main)) [
  | inl same ↦
      let e : main ≡ p = ground (arith, same) in
      subst (λ k. or_server (find_clone k (clones main pool)) main ≡ k) e
        (ap (λ o. or_server o main) (clones_main main pool))
  | inr other ↦
      let apart : p ≢ main = ground (arith, other) in
      ap (λ o. or_server o main) (clones_other main p pool apart h)
]

-- Whichever server of a pool accepts a connection, the main one or a clone that can reach it, the connection goes to the
-- server of the poller that owns its socket.
pub get_server_lem :
    (locked : Bool) (main self p : ℕ) (pool : List ℕ)
    → 1 ≤ count p pool
    → (self ≢ main → locked ≡ true)
    → get_server locked main self (clones main pool) p ≡ p
unfolding get_server
get_server_lem locked main self p pool h reach = elim (Bool-cases (self == main)) [
  | inl same ↦ pick_true _ _ same ∙ find-clones main p pool h
  | inr other ↦
      let apart : self ≢ main = ground (arith, other) in
      pick_false _ _ other ∙ pick_true _ _ (reach apart) ∙ find-clones main p pool h
]
