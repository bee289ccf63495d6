-- ===== src/Util/Text/Tests.antt =====
-- Short texts.
use zltool_kit.Kit.{◌≡◌, refl, true, false, [], ◌∷◌, ◌++◌, some, arith}
use zltool_kit.Util.Text.{
  Text, split_loop, split, replace_loop, replace, trim, start_with, end_with, is_safe,
}
use zltool_kit.Util.Text.Pieces.{pieces, join}
use zltool_kit.Util.Text.Split.{fields, split_lem}
use zltool_kit.Util.Text.Join.{IsField}
use zltool_kit.Util.Text.Replace.{replace_lem}

abbrev a_comma_b : Text
a_comma_b = b'a' ∷ b',' ∷ b',' ∷ b'b' ∷ []

a_comma_b-split : split 5 a_comma_b (b',' ∷ []) ≡ some ((b'a' ∷ []) ∷ (b'b' ∷ []) ∷ [])
unfolding split split_loop
a_comma_b-split = refl

nothing-split : split 5 [] (b',' ∷ []) ≡ some ([] ∷ [])
unfolding split split_loop
nothing-split = refl

-- A match is not looked for in what was put in.
a_comma_b-replace :
    replace 5 a_comma_b (b',' ∷ []) (b',' ∷ b',' ∷ []) 0
    ≡ some (b'a' ∷ b',' ∷ b',' ∷ b',' ∷ b',' ∷ b'b' ∷ [])
unfolding replace replace_loop
a_comma_b-replace = refl

a_comma_b-trim : trim (b'a' ∷ b'b' ∷ []) a_comma_b ≡ some (b',' ∷ b',' ∷ [])
unfolding trim
a_comma_b-trim = refl

a_comma_b-start_with : start_with a_comma_b (b'a' ∷ b',' ∷ []) ≡ true
unfolding start_with
a_comma_b-start_with = refl

a_comma_b-end_with : end_with a_comma_b (b',' ∷ b'a' ∷ []) ≡ false
unfolding end_with
a_comma_b-end_with = refl

tilde_safe : is_safe b'~' ≡ true
unfolding is_safe
tilde_safe = refl

split_lem_example : split 5 a_comma_b (b',' ∷ []) ≡ some (fields (b',' ∷ []) a_comma_b)
split_lem_example = split_lem 5 a_comma_b b',' [] (omega arith)

a_IsField : IsField b',' (b'a' ∷ [])
a_IsField = ((λ e. ground (arith, e)), (ground arith, tt))

b_IsField : IsField b',' (b'b' ∷ [])
b_IsField = ((λ e. ground (arith, e)), (ground arith, tt))

replace_lem_example :
    replace 5 ([] ++ a_comma_b) (b',' ∷ []) (b';' ∷ []) 0
    ≡ some ([] ++ join (b';' ∷ []) (pieces (b',' ∷ []) a_comma_b))
replace_lem_example = replace_lem 5 [] a_comma_b b',' [] (b';' ∷ []) refl (omega arith)
