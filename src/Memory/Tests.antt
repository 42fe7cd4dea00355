-- ===== src/Memory/Tests.antt =====
-- Runs over a memory whose bytes are their addresses.
use git_os.Base.{◌≡◌, refl}
use git_os.Base.Int.{negsuc}
use git_os.Memory.{Bytes, memcpy, memcpy_from, memcmp}

abbrev same : Bytes
same a = a

-- A block that is copied forwards onto itself repeats its first bytes.
overlap :
    (memcpy same 12 10 4 14 ≡ 10) × (memcpy same 12 10 4 15 ≡ 11) × (memcmp same 10 12 2 ≡ negsuc 0)
unfolding memcpy memcpy_from memcmp
overlap = (refl, refl, refl)
