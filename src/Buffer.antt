-- ===== src/Buffer.antt =====
-- src/Network/Buffer.h and Buffer.cpp: `BufferRaw`, an owned block of bytes with a valid size.
-- Memory that the program has not written is the parameter `uninit`: what a block of each size
-- holds when `new char[size]` hands it out.
pub mod Laws
pub mod Like
use zltool_kit.Kit.{
  ℕ, ◌+◌, ◌*◌, ◌%◌, ◌^◌, Bool, true, false, ◌&&◌, ◌||◌, List, [], ◌∷◌, ◌++◌, Option, none, some,
  ltb, leb, ◌==◌, if◌then◌else◌, length, take, drop,
}

-- `mem` is the block that `_data` points to; `allocated` says that `_data` is not null.
pub record BufferRaw : Type 0 where
  pub mem : List ℕ
  pub allocated : Bool
  pub capacity : ℕ
  pub size : ℕ

abbrev pub empty_buffer : BufferRaw
empty_buffer = record { mem = []; allocated = false; capacity = 0; size = 0 }

-- The valid bytes.
abbrev pub contents : BufferRaw → List ℕ
contents b = take b.size b.mem

-- The block is kept only if it is large enough, and either small or not twice too large.
unfoldable pub keeps_block : ℕ → BufferRaw → Bool
keeps_block c b =
    b.allocated && (leb c b.capacity && (ltb b.capacity 2048 || ltb b.capacity (2 * c % 2 ^ 64)))

unfoldable pub set_capacity : (ℕ → List ℕ) → ℕ → BufferRaw → BufferRaw
unfolding keeps_block
set_capacity uninit c b =
    if keeps_block c b then b else record b { mem = uninit c; allocated = true; capacity = c }

-- `none` is the exception `invalid_argument`.
unfoldable pub set_size : ℕ → BufferRaw → Option BufferRaw
set_size n b = if ltb b.capacity n then none else some (record b { size = n })

-- `memcpy` to offset `off`; the callers show that the copy ends inside the block.
abbrev pub memcpy_at : ℕ → List ℕ → List ℕ → List ℕ
memcpy_at off src mem = take off mem ++ (src ++ drop (off + length src) mem)

-- `strlen`: the bytes before the first zero.
unfoldable pub strlen : List ℕ → ℕ
strlen [] = 0
strlen (x ∷ xs) = if x == 0 then 0 else strlen xs + 1

-- `assign(data, size)` where `bytes` is what stands at `data` up to the end of its block, which is
-- closed by a zero. A size of 0 means `strlen`. The capacity is `size + 1`, so `setSize` succeeds.
unfoldable pub assign : (ℕ → List ℕ) → List ℕ → ℕ → BufferRaw → BufferRaw
unfolding set_capacity strlen
assign uninit bytes size b =
    let n = if size == 0 then strlen bytes else size in
    let grown = set_capacity uninit (n + 1) b in
    record grown { mem = memcpy_at 0 (take n bytes ++ 0 ∷ []) grown.mem; size = n }

-- `BufferRaw::create(size)`.
unfoldable pub create : (ℕ → List ℕ) → ℕ → BufferRaw
unfolding set_capacity
create uninit n = if n == 0 then empty_buffer else set_capacity uninit n empty_buffer
