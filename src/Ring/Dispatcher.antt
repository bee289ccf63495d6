-- ===== src/Ring/Dispatcher.antt =====
-- `_RingReaderDispatcher`: the readers of one poller. A reader is its address; a dispatcher's map
-- holds weak references (in a list, since its order is not specified), and `alive` says which of
-- them can be locked. Calls of the readers and of `_on_size_changed` are notes, in their order.
pub mod Sweep
mod Tests
use zltool_kit.Kit.{
  ℕ, zero, suc, ◌+◌, Bool, true, false, List, [], ◌∷◌, ◌++◌, Option, none, some, ◌==◌,
  if◌then◌else◌,
}
use zltool_kit.Kit.Words.{add32, sub32}
use zltool_kit.Ring.Storage.{Storage, write, clear_cache}

-- `onRead`, `onMessage`, `onDetach` of a reader, and `_on_size_changed`.
pub data Note (T M : Type 0) : Type 0 where
  on_read : ℕ → T → Bool → Note T M
  on_message : ℕ → M → Note T M
  on_detach : ℕ → Note T M
  size_changed : ℕ → Bool → Note T M

pub record Dispatcher (T M : Type 0) : Type 0 where
  pub readers : List ℕ
  pub reader_size : ℕ
  pub storage : Storage T
  pub notes : List (Note T M)

-- What the loops of `write` and `sendMessage` change.
pub record Swept (T M : Type 0) : Type 0 where
  pub kept : List ℕ
  pub size : ℕ
  pub made : List (Note T M)

abbrev pub has_reader : ℕ → List ℕ → Bool
has_reader r [] = false
has_reader r (q ∷ qs) = if q == r then true else has_reader r qs

abbrev pub erase_reader : ℕ → List ℕ → List ℕ
erase_reader r [] = []
erase_reader r (q ∷ qs) = if q == r then qs else q ∷ erase_reader r qs

module _ {T M : Type 0} where
  unfoldable pub new_dispatcher : Storage T → Dispatcher T M
  new_dispatcher s = record { readers = []; reader_size = 0; storage = s; notes = [] }

  -- Their loop: a reader that is gone is erased and counted off, another one is called.
  unfoldable pub sweep : (ℕ → Bool) → (ℕ → Note T M) → ℕ → List ℕ → Swept T M
  sweep alive call size [] = record { kept = []; size = size; made = [] }
  sweep alive call size (r ∷ rs) =
      let called = sweep alive call size rs in
      let erased = sweep alive call (sub32 size 1) rs in
      if alive r
      then record called { kept = r ∷ called.kept; made = call r ∷ called.made }
      else record erased { made = size_changed (sub32 size 1) false ∷ erased.made }

  abbrev pub swept : Swept T M → Dispatcher T M → Dispatcher T M
  swept s d = record d { readers = s.kept; reader_size = s.size; notes = d.notes ++ s.made }

  unfoldable pub dispatch_write : (ℕ → Bool) → T → Bool → Dispatcher T M → Dispatcher T M
  dispatch_write alive x is_key d =
      let e = swept (sweep alive (λ r. on_read r x is_key) d.reader_size d.readers) d in
      record e { storage = write x is_key e.storage }

  unfoldable pub dispatch_message : (ℕ → Bool) → M → Dispatcher T M → Dispatcher T M
  dispatch_message alive message d =
      swept (sweep alive (λ r. on_message r message) d.reader_size d.readers) d

  -- `attach` with the address of the new reader; an address that is in the map already keeps its place.
  unfoldable pub attach : ℕ → Dispatcher T M → Dispatcher T M
  attach r d = record d {
    readers = if has_reader r d.readers then d.readers else r ∷ d.readers;
    reader_size = add32 d.reader_size 1;
    notes = d.notes ++ size_changed (add32 d.reader_size 1) true ∷ [];
  }

  -- The task that the deleter of a reader posts, while the dispatcher lives.
  unfoldable pub release : ℕ → Dispatcher T M → Dispatcher T M
  release r d =
      if has_reader r d.readers
      then record d {
        readers = erase_reader r d.readers;
        reader_size = sub32 d.reader_size 1;
        notes = d.notes ++ size_changed (sub32 d.reader_size 1) false ∷ [];
      }
      else d

  unfoldable pub dispatch_clear : Dispatcher T M → Dispatcher T M
  dispatch_clear d = if d.reader_size == 0 then record d { storage = clear_cache d.storage } else d

  -- The destructor: every reader that is there is told.
  unfoldable pub detach_all : (ℕ → Bool) → List ℕ → List (Note T M)
  detach_all alive [] = []
  detach_all alive (r ∷ rs) =
      let rest = detach_all alive rs in if alive r then on_detach r ∷ rest else rest

-- `getInfoList`; `info` is what a reader's callback returns, and `none` an empty `Any`.
unfoldable pub get_info_list :
    {I J : Type 0} → (ℕ → Bool) → (ℕ → Option I) → (I → J) → List ℕ → List J
get_info_list alive info on_change [] = []
get_info_list alive info on_change (r ∷ rs) =
    let rest = get_info_list alive info on_change rs in
    if alive r then elim (info r) [ none ↦ rest | some i ↦ on_change i ∷ rest ] else rest
