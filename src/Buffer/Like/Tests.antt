-- ===== src/Buffer/Like/Tests.antt =====
-- `BufferLikeString` on concrete strings.
use zltool_kit.Kit.{ℕ, ◌≡◌, refl, inl, inr, List, [], ◌∷◌, some, arith}
use zltool_kit.Buffer.Like.{npos, from_string}
use zltool_kit.Buffer.Like.Refine.{Call, erase_call, append_call, push_call, insert_call}
use zltool_kit.Buffer.Like.History.{run_all, expected_all, shown, run_all-from_string}

abbrev bytes : List ℕ
bytes = 10 ∷ 11 ∷ 12 ∷ 13 ∷ 14 ∷ []

abbrev calls : List Call
calls =
    erase_call 0 2
    ∷ append_call 3 (20 ∷ 21 ∷ [])
    ∷ erase_call 4 npos
    ∷ push_call 30
    ∷ erase_call 1 1
    ∷ insert_call 1 (40 ∷ [])
    ∷ []

calls_expected : expected_all calls bytes ≡ some (12 ∷ 40 ∷ 14 ∷ 20 ∷ 30 ∷ [])
calls_expected = refl

run_all-from_string_example : shown (run_all calls (from_string bytes)) ≡ expected_all calls bytes
run_all-from_string_example =
    run_all-from_string calls bytes (omega arith)
      (inr (omega arith), (tt, (inl refl, (tt, (inr (omega arith), (omega arith, tt))))))
