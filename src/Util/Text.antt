-- ===== src/Util/Text.antt =====
-- src/Util/util.cpp: the functions on text. A text is the list of its bytes; npos is none. A function that throws,
-- or that writes where it may not, gives none.
use zltool_kit.Kit.{
  ℕ, zero, suc, ◌+◌, ◌-◌, Bool, true, false, not, ◌&&◌, ◌||◌, List, [], ◌∷◌, ◌++◌, Option, none,
  some, ltb, leb, ◌==◌, if◌then◌else◌, length, take, drop,
}
pub mod Pieces
mod Search
pub mod Split
pub mod Join
pub mod Replace
pub mod Trim
pub mod Ends
mod Tests

abbrev pub Text : Type 0
Text = List ℕ

abbrev pub is_empty : Text → Bool
is_empty [] = true
is_empty (x ∷ xs) = false

abbrev pub is_same : Text → Text → Bool
is_same [] [] = true
is_same [] (y ∷ ys) = false
is_same (x ∷ xs) [] = false
is_same (x ∷ xs) (y ∷ ys) = (x == y) && is_same xs ys

abbrev pub is_prefix : Text → Text → Bool
is_prefix [] xs = true
is_prefix (p ∷ ps) [] = false
is_prefix (p ∷ ps) (x ∷ xs) = (p == x) && is_prefix ps xs

abbrev pub substr : (pos n : ℕ) → Text → Text
substr pos n s = take n (drop pos s)

-- std::string::find and rfind, on the rest of the text from position `i` on.
abbrev pub find_from : (pat rest : Text) → ℕ → Option ℕ
find_from pat [] i = if is_empty pat then some i else none
find_from pat (x ∷ xs) i =
    let later = find_from pat xs (suc i) in if is_prefix pat (x ∷ xs) then some i else later

abbrev pub find : (s pat : Text) → (pos : ℕ) → Option ℕ
find s pat pos = if ltb (length s) pos then none else find_from pat (drop pos s) pos

abbrev pub or_else : Option ℕ → Option ℕ → Option ℕ
or_else (some i) o = some i
or_else none o = o

abbrev pub rfind_from : (pat rest : Text) → ℕ → Option ℕ
rfind_from pat [] i = if is_empty pat then some i else none
rfind_from pat (x ∷ xs) i =
    or_else (rfind_from pat xs (suc i)) (if is_prefix pat (x ∷ xs) then some i else none)

-- Pushes the text between two positions unless it is empty.
abbrev pub push_piece : (s : Text) → (last index : ℕ) → List Text → List Text
push_piece s last index rest =
    if ltb 0 (index - last) then substr last (index - last) s ∷ rest else rest

abbrev pub with_piece :
    (s : Text) → (last index : ℕ) → Option (List Text × ℕ) → Option (List Text × ℕ)
with_piece s last index none = none
with_piece s last index (some (rest, end)) = some (push_piece s last index rest, end)

-- The loop of `split`: what it pushes, and `last` at its end; none is the loop still running.
unfoldable pub split_loop :
    (fuel : ℕ) → (s delim : Text) → (last : ℕ) → Option ℕ → Option (List Text × ℕ)
split_loop zero s delim last index = none
split_loop (suc n) s delim last none = some ([], last)
split_loop (suc n) s delim last (some index) =
    let next = index + length delim in
    with_piece s last index (split_loop n s delim next (find s delim next))

abbrev pub push_rest : (s : Text) → Option (List Text × ℕ) → Option (List Text)
push_rest s none = none
push_rest s (some (ret, last)) =
    some (if is_empty s || ltb 0 (length s - last) then ret ++ (drop last s ∷ []) else ret)

unfoldable pub split : (fuel : ℕ) → (s delim : Text) → Option (List Text)
split fuel s delim = push_rest s (split_loop fuel s delim 0 (find s delim 0))

-- The table of TRIM has 255 entries, so `at` throws for the byte 255.
abbrev pub contains : ℕ → Text → Bool
contains c [] = false
contains c (x ∷ xs) = let rest = contains c xs in if x == c then true else rest

abbrev pub at : Text → ℕ → Option Bool
at chars c = if ltb c 255 then some (contains c chars) else none

abbrev pub trim_first : Option Bool → (kept trimmed : Option Text) → Option Text
trim_first none kept trimmed = none
trim_first (some true) kept trimmed = trimmed
trim_first (some false) kept trimmed = kept

abbrev pub trim_front : (chars : Text) → Text → Option Text
trim_front chars [] = some []
trim_front chars (x ∷ xs) = trim_first (at chars x) (some (x ∷ xs)) (trim_front chars xs)

-- From the back: the first byte is looked at only when all behind it are gone.
abbrev pub trim_behind : (chars : Text) → ℕ → Option Text → Option Text
trim_behind chars x none = none
trim_behind chars x (some []) = trim_first (at chars x) (some (x ∷ [])) (some [])
trim_behind chars x (some (y ∷ ys)) = some (x ∷ y ∷ ys)

abbrev pub trim_back : (chars : Text) → Text → Option Text
trim_back chars [] = some []
trim_back chars (x ∷ xs) = trim_behind chars x (trim_back chars xs)

abbrev pub then_trim_front : (chars : Text) → Option Text → Option Text
then_trim_front chars none = none
then_trim_front chars (some s) = trim_front chars s

-- The byte 255 in `chars` is written past the table.
unfoldable pub trim : (chars s : Text) → Option Text
trim chars s = if contains 255 chars then none else then_trim_front chars (trim_back chars s)

unfoldable pub replace_loop : (fuel : ℕ) → (old new : Text) → Text → Option ℕ → Option Text
replace_loop zero old new str index = none
replace_loop (suc n) old new str none = some str
replace_loop (suc n) old new str (some pos) =
    let next = take pos str ++ (new ++ drop (pos + length old) str) in
    replace_loop n old new next (find next old (pos + length new))

unfoldable pub replace : (fuel : ℕ) → (str old new : Text) → (b_pos : ℕ) → Option Text
replace fuel str old new b_pos =
    if is_empty old || is_same old new
    then some str
    else replace_loop fuel old new str (find str old b_pos)

abbrev pub is_zero : Option ℕ → Bool
is_zero none = false
is_zero (some i) = i == 0

unfoldable pub start_with : (str sub : Text) → Bool
start_with str sub = is_zero (find str sub 0)

abbrev pub is_at : ℕ → Option ℕ → Bool
is_at n none = false
is_at n (some i) = i == n

unfoldable pub end_with : (str sub : Text) → Bool
end_with str sub = is_at (length str - length sub) (rfind_from sub str 0)

unfoldable pub is_safe : ℕ → Bool
is_safe b = leb 32 b && ltb b 128
