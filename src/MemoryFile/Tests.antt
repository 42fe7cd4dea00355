-- ===== src/MemoryFile/Tests.antt =====
-- A file of four bytes in memory, and the theorems on such files applied to it.
use git_os.Base.{◌≡◌, refl, arith, [], ◌∷◌, ok, err, einvarg}
use git_os.Fat.{seek_set, seek_cur}
use git_os.MemoryFile.{MemoryFile, seek, seek_index, memory_read, memory_write}
use git_os.MemoryFile.RoundTrip.{memory_read-memory_write}

abbrev file : MemoryFile
file = record { buffer = λ i. 0; buffer_size = 4; buffer_idx = 1 }

-- The current index cannot be moved on.
no_step : seek file 1 seek_cur ≡ (err einvarg, file)
unfolding seek seek_index
no_step = refl

memory_read-memory_write_example :
    let (written, m') = memory_write file 1 2 (8 ∷ 9 ∷ []) in
    let (res, m'') = seek m' 1 seek_set in
    let (count, bytes, m''') = memory_read m'' 1 2 (0 ∷ 0 ∷ []) in
    (written ≡ ok 2) × (res ≡ ok tt) × (count ≡ ok 2) × (bytes ≡ 8 ∷ 9 ∷ [])
memory_read-memory_write_example =
    memory_read-memory_write 2 1 file (8 ∷ 9 ∷ []) (0 ∷ 0 ∷ []) (omega arith) (omega arith)
      (omega arith) (omega arith) (omega arith)
