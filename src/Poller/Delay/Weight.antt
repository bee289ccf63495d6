-- ===== src/Poller/Delay/Weight.antt =====
-- Which entries a round of the delayed tasks leaves in the map.
use zltool_kit.Kit.{
  ℕ, zero, suc, ◌+◌, ◌≡◌, inl, inr, refl, ap, ◌∙◌, List, [], ◌∷◌, ◌++◌, Option, none, some, ltb,
  leb, if◌then◌else◌, Bool-cases, arith, pick_true, pick_false,
}
use zltool_kit.Kit.Words.{u64}
use zltool_kit.Poller.Delay.{Call, emplace, insert_range, put_back, run_expired}

module _ {A : Type 0} where
  -- The entries that are not due.
  abbrev pub not_due : ℕ → List (ℕ × A) → List (ℕ × A)
  not_due now [] = []
  not_due now (e ∷ es) = if leb e.0 now then not_due now es else e ∷ es

  -- The entry of a task that asked to be called again.
  abbrev pub again : ℕ → A → Option ℕ → List (ℕ × A)
  again now a none = []
  again now a (some zero) = []
  again now a (some (suc d)) = (u64 (suc d + now), a) ∷ []

  -- The entries that the calls of the due tasks ask for.
  abbrev pub asked : (A → Call A) → ℕ → List (ℕ × A) → List (ℕ × A)
  asked run now [] = []
  asked run now (e ∷ es) =
      let c = run e.1 in
      let more = asked run now es in
      if leb e.0 now then c.added ++ (again now e.1 c.next_delay ++ more) else []

  -- The weight of a list of entries: lists with the same weight by every measure have the same entries, as often.
  abbrev pub weight : (ℕ × A → ℕ) → List (ℕ × A) → ℕ
  weight m [] = 0
  weight m (e ∷ es) = m e + weight m es

  module _ (m : ℕ × A → ℕ) where
    weight-append : (xs ys : List (ℕ × A)) → weight m (xs ++ ys) ≡ weight m xs + weight m ys
    weight-append [] ys = omega arith
    weight-append (x ∷ xs) ys = omega (arith, weight-append xs ys)

    weight-emplace : (e : ℕ × A) (es : List (ℕ × A)) → weight m (emplace e es) ≡ m e + weight m es
    unfolding emplace
    weight-emplace e [] = refl
    weight-emplace e (f ∷ fs) = elim (Bool-cases (ltb e.0 f.0)) [
      | inl b ↦ ap (weight m) (pick_true _ _ b)
      | inr b ↦ ap (weight m) (pick_false _ _ b) ∙ omega (arith, weight-emplace e fs)
    ]

    pub weight-insert_range :
        (es fs : List (ℕ × A)) → weight m (insert_range es fs) ≡ weight m es + weight m fs
    unfolding insert_range
    weight-insert_range [] fs = omega arith
    weight-insert_range (e ∷ es) fs =
        omega (arith, weight-insert_range es (emplace e fs), weight-emplace e fs)

    weight-put_back :
        (now : ℕ) (a : A) (next : Option ℕ) (fresh : List (ℕ × A))
        → weight m (put_back now a next fresh) ≡ weight m (again now a next) + weight m fresh
    weight-put_back now a none fresh = omega arith
    weight-put_back now a (some zero) fresh = omega arith
    weight-put_back now a (some (suc d)) fresh =
        weight-emplace (u64 (suc d + now), a) fresh ∙ omega arith

    pub weight-run_expired :
        (run : A → Call A) (now : ℕ) (es fresh : List (ℕ × A))
        → let r = run_expired run now es fresh in
          weight m r.1.0 + weight m r.0
          ≡ weight m fresh + (weight m (not_due now es) + weight m (asked run now es))
    unfolding run_expired
    weight-run_expired run now [] fresh = omega arith
    weight-run_expired run now (e ∷ es) fresh = elim (Bool-cases (leb e.0 now)) [
      | inl b ↦
          let c = run e.1 in
          let made = insert_range c.added fresh in
          let more = asked run now es in
          rw b (
            omega (
              arith,
              weight-run_expired run now es (put_back now e.1 c.next_delay made),
              weight-put_back now e.1 c.next_delay made,
              weight-insert_range c.added fresh,
              weight-append c.added (again now e.1 c.next_delay ++ more),
              weight-append (again now e.1 c.next_delay) more,
            ))
      | inr b ↦ rw b (omega arith)
    ]
