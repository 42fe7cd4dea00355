-- ===== src/FilePath/Free.antt =====
-- The freeing of a parsed path, `pathparser_free` of src/kernel/fs/Path.cpp.
use git_os.Base.{ℕ, ◌<◌, ◌≡◌, refl, ap, ◌∙◌, arith, List, [], ◌∷◌}
use git_os.Heap.{Heap, free, address_to_block}
use git_os.Heap.Twice.{free_all, free_twice, address_to_block-free}
use git_os.FilePath.{free_parts, pathparser_free}

-- The addresses in the order in which they are freed.
abbrev pub addresses : List (ℕ × ℕ) → List ℕ
addresses [] = []
addresses ((part, node) ∷ parts) = part ∷ node ∷ addresses parts

pub free_parts-all :
    (h : Heap) (parts : List (ℕ × ℕ)) → free_parts h parts ≡ free_all h (addresses parts)
unfolding free_parts free_all
free_parts-all h [] = refl
free_parts-all h ((part, node) ∷ parts) = free_parts-all (free (free h part) node) parts

-- `pathparser_free` of a path that begins at `path` frees the buffer and the part of each of its parts,
-- in order. It then frees `path`, which it has freed already, once more; where that lies in the heap,
-- this second time changes nothing.
pub pathparser_free-all :
    (h : Heap) (path part : ℕ) (parts : List (ℕ × ℕ))
    → address_to_block h path < h.total
    → pathparser_free h path ((part, path) ∷ parts) ≡ free_all h (addresses ((part, path) ∷ parts))
unfolding pathparser_free free_parts free_all
pathparser_free-all h path part parts inside =
    let (same, total) = address_to_block-free h part path in
    ap (λ (g : Heap). free g path) (free_parts-all (free (free h part) path) parts)
    ∙ free_twice (free h part) path (addresses parts) (omega (arith, same, total, inside))
