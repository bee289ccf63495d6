-- ===== src/Ring/Storage/Tests.antt =====
-- The cache at concrete inputs.
use zltool_kit.Kit.{ℕ, true, false, arith}
use zltool_kit.Ring.Storage.{Storage, new_storage, write}
use zltool_kit.Ring.Storage.Laws.{IsValid, new_storage-IsValid, write-IsValid}

-- A cache after a key frame and another one.
abbrev played : Storage ℕ
played = write 2 false (write 1 true (new_storage 40 3))

played-IsValid : IsValid played
played-IsValid =
    write-IsValid 2 false (write 1 true (new_storage 40 3))
      (write-IsValid 1 true (new_storage 40 3) (new_storage-IsValid 40 3 (omega arith)))
