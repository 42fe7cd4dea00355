-- ===== src/FilePath/Tests.antt =====
-- The path 0:/a/b, and the theorems on paths applied to it.
use git_os.Base.{ℕ, ◌≡◌, refl, arith, List, [], ◌∷◌}
use git_os.Heap.{Heap, address_to_block}
use git_os.Heap.Twice.{free_all}
use git_os.FilePath.{pathparser_free}
use git_os.FilePath.Split.{split}
use git_os.FilePath.Parse.{pathparser_parse-split, Parsed}
use git_os.FilePath.Free.{pathparser_free-all, addresses}

abbrev path : List ℕ
path = b'0' ∷ b':' ∷ b'/' ∷ b'a' ∷ b'/' ∷ b'b' ∷ []

three_parts : split [] path ≡ (b'0' ∷ b':' ∷ []) ∷ (b'a' ∷ []) ∷ (b'b' ∷ []) ∷ []
unfolding split
three_parts = refl

pathparser_parse-split_example : Parsed path
pathparser_parse-split_example = pathparser_parse-split path (omega arith) (omega arith)

-- A heap of four blocks, all of them taken.
abbrev heap : Heap
heap = record { entries = λ i. 1; total = 4; start_address = 4096 }

pathparser_free-all_example :
    pathparser_free heap 8192 ((4096, 8192) ∷ []) ≡ free_all heap (addresses ((4096, 8192) ∷ []))
unfolding address_to_block
pathparser_free-all_example = pathparser_free-all heap 8192 4096 [] (omega arith)
