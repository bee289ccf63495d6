-- ===== src/Buffer/Like.antt =====
-- `BufferLikeString` of src/Network/Buffer.h: a string with bytes hidden at both of its ends, so that
-- erasing there moves no byte. What `std::string` does is written out: its bytes as a list, an
-- exception as `none`, where what is left of the string is not modelled, and its capacity as an
-- argument.
pub mod View
pub mod Refine
pub mod History
mod Tests
use zltool_kit.Kit.{
  ℕ, zero, suc, ◌+◌, ◌-◌, ◌/◌, ◌^◌, Bool, true, false, ◌||◌, ◌&&◌, List, [], ◌∷◌, ◌++◌, Option,
  none, some, ltb, leb, ◌==◌, if◌then◌else◌, length, take, drop, set, get_elem?, replicate,
}
use zltool_kit.Kit.Words.{u64, sub64}

pub record LikeString : Type 0 where
  pub str : List ℕ
  pub erase_head : ℕ
  pub erase_tail : ℕ

-- `std::string::npos`.
abbrev pub npos : ℕ
npos = 2 ^ 64 - 1

-- The constructor from a string, and the assignment of one.
unfoldable pub from_string : List ℕ → LikeString
from_string s = record { str = s; erase_head = 0; erase_tail = 0 }

-- `size()`, in `size_t`.
abbrev pub size : LikeString → ℕ
size b = sub64 (sub64 (length b.str) b.erase_tail) b.erase_head

-- The bytes from `data()` on.
abbrev pub contents : LikeString → List ℕ
contents b = take (size b) (drop b.erase_head b.str)

-- `data()[pos] = c`; behind the last byte of the string stands its terminator.
unfoldable pub put : ℕ → ℕ → LikeString → LikeString
put pos c b = record b { str = set b.str (b.erase_head + pos) c }

unfoldable pub terminate : LikeString → LikeString
unfolding put
terminate b = put (size b) 0 b

-- `std::string::erase` and `insert` at a position inside the string.
abbrev pub string_erase : ℕ → ℕ → List ℕ → List ℕ
string_erase pos n s = take pos s ++ drop (pos + n) s

abbrev pub string_insert : ℕ → List ℕ → List ℕ → List ℕ
string_insert pos d s = take pos s ++ d ++ drop pos s

unfoldable pub erase_front : ℕ → LikeString → Option LikeString
erase_front n b =
    if n == npos
    then some (put 0 0 (record b { erase_head = 0; erase_tail = length b.str }))
    else if ltb (size b) n
    then none
    else some (terminate (record b { erase_head = u64 (b.erase_head + n) }))

unfoldable pub erase_back : ℕ → LikeString → Option LikeString
erase_back pos b =
    if leb (size b) pos
    then none
    else some (terminate (record b { erase_tail = u64 (b.erase_tail + sub64 (size b) pos) }))

unfoldable pub erase_middle : ℕ → ℕ → LikeString → Option LikeString
erase_middle pos n b =
    if ltb (size b) (u64 (pos + n))
    then none
    else some (record b { str = string_erase (b.erase_head + pos) n b.str })

unfoldable pub erase : ℕ → ℕ → LikeString → Option LikeString
erase pos n b =
    if pos == 0
    then erase_front n b
    else if (n == npos) || leb (size b) (u64 (pos + n))
    then erase_back pos b
    else erase_middle pos n b

unfoldable pub move_data : LikeString → LikeString
move_data b =
    if b.erase_head == 0 then b else record b { str = drop b.erase_head b.str; erase_head = 0 }

-- `append` with a length; `capacity` is what `_str.capacity()` returns.
unfoldable pub append : ℕ → List ℕ → LikeString → LikeString
append capacity d b =
    let moved = if ltb (capacity / 2) b.erase_head then move_data b else b in
    let appended =
      if moved.erase_tail == 0
      then record moved { str = moved.str ++ d }
      else record moved { str = string_insert (moved.erase_head + size moved) d moved.str } in
    if length d == 0 then b else appended

unfoldable pub push_back : ℕ → LikeString → LikeString
push_back c b =
    let reused = put (size b) c b in
    if b.erase_tail == 0
    then record b { str = b.str ++ c ∷ [] }
    else terminate (record reused { erase_tail = sub64 b.erase_tail 1 })

unfoldable pub insert : ℕ → List ℕ → LikeString → Option LikeString
insert pos d b =
    if ltb (length b.str) (b.erase_head + pos)
    then none
    else some (record b { str = string_insert (b.erase_head + pos) d b.str })

-- What `assign` is given: bytes of its own string, by their offset, or others.
pub data Source : Type 0 where
  inside : ℕ → ℕ → Source
  outside : List ℕ → Source

unfoldable pub assign : Source → LikeString → Option LikeString
assign (outside d) b = if length d == 0 then some b else some (from_string d)
assign (inside offset n) b =
    if n == 0
    then some b
    else if ltb (length b.str) (offset + n)
    then none
    else some (record b { erase_head = offset; erase_tail = length b.str - (offset + n) })

unfoldable pub clear : LikeString → LikeString
clear b = record { str = []; erase_head = 0; erase_tail = 0 }

unfoldable pub at : ℕ → LikeString → Option ℕ
at pos b = if leb (size b) pos then none else get_elem? b.str (b.erase_head + pos)

-- `std::string::substr` from a position inside the string.
abbrev pub string_substr : ℕ → ℕ → List ℕ → List ℕ
string_substr pos n s = take n (drop pos s)

unfoldable pub substr : ℕ → ℕ → LikeString → Option (List ℕ)
substr pos n b =
    if n == npos
    then if leb (size b) pos
      then none
      else some (string_substr (b.erase_head + pos) (sub64 (size b) pos) b.str)
    else if ltb (size b) (u64 (pos + n))
    then none
    else some (string_substr (b.erase_head + pos) n b.str)

-- `memset` on the bytes of the string; `none` is a write past its terminator.
abbrev pub fill : ℕ → ℕ → ℕ → List ℕ → Option (List ℕ)
fill pos c n s =
    if n == 0
    then some s
    else if ltb (length s) (pos + n)
    then none
    else some (take pos s ++ replicate n c ++ drop (pos + n) s)

-- `std::string::resize`.
abbrev pub string_resize : ℕ → ℕ → List ℕ → List ℕ
string_resize n c s = take n s ++ replicate (n - length s) c

abbrev pub filled : LikeString → Option (List ℕ) → Option LikeString
filled b none = none
filled b (some s) = some (record b { str = s })

unfoldable pub grow : ℕ → ℕ → LikeString → Option LikeString
grow append c b =
    let pos = b.erase_head + size b in
    if ltb b.erase_tail append
    then filled (record b { erase_tail = 0 })
        (fill pos c b.erase_tail (string_resize (append - b.erase_tail) c b.str))
    else filled (record b { erase_tail = b.erase_tail - append }) (fill pos c append b.str)

unfoldable pub shrink : ℕ → ℕ → LikeString → Option LikeString
shrink n c b =
    let erased = sub64 (size b) n in
    filled (record b { erase_tail = u64 (b.erase_tail + erased) })
      (fill (b.erase_head + n) c erased b.str)

unfoldable pub resize : ℕ → ℕ → LikeString → Option LikeString
resize n c b =
    if n == size b
    then some b
    else if ltb (size b) n
    then grow (sub64 n (size b)) c b
    else shrink n c b
