-- ===== src/Thread/Executor/Tests.antt =====
-- The choice at a concrete input.
use zltool_kit.Kit.{ℕ, [], ◌∷◌, get_or}

abbrev loads : ℕ → ℕ
loads i = get_or (50 ∷ 20 ∷ 70 ∷ []) i 0
