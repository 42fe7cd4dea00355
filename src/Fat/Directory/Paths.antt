-- ===== src/Fat/Directory/Paths.antt =====
-- Which records of a directory are found, in src/kernel/fs/fat16/fat16.c.
use git_os.Base.{
  ℕ, ◌≡◌, refl, ◌∙◌, arith, Bool, true, false, Option, none, some, List, [], ◌∷◌, ◌++◌,
}
use mathlib.Core.Option
use git_os.Str.{istrncmp}
use git_os.Disk.{Drive}
use git_os.Fat.{FatFile, FatItem, item_directory, FatPrivate}
use git_os.Fat.Names.{get_full_relative_filename}
use git_os.Fat.Directory.{find_item, is_zero, new_fat_item, follow, get_directory_entry}

-- The name of a record against the name that is looked for.
abbrev pub name_test : FatFile → List ℕ → Option Bool
name_test item name = elim (get_full_relative_filename item) [
  | none ↦ none
  | some tmp ↦ Option.map is_zero (istrncmp tmp name 11)
]

-- All of the records have another name.
abbrev pub AllDiffer : List FatFile → List ℕ → Type 0
AllDiffer [] name = Unit {0}
AllDiffer (item ∷ items) name = (name_test item name ≡ some false) × AllDiffer items name

find_item_skip :
    (drive : Drive) (fs : FatPrivate) (fuel : ℕ) (item : FatFile) (items : List FatFile)
    (name : List ℕ) (f_item : Option FatItem)
    → name_test item name ≡ some false
    → find_item drive fs fuel (item ∷ items) name f_item ≡ find_item drive fs fuel items name f_item
unfolding find_item
find_item_skip drive fs fuel item items name f_item h = ground arith

find_item_take :
    (drive : Drive) (fs : FatPrivate) (fuel : ℕ) (item : FatFile) (items : List FatFile)
    (name : List ℕ) (f_item : Option FatItem) (found : FatItem)
    → name_test item name ≡ some true
    → new_fat_item drive fs fuel item ≡ some found
    → find_item drive fs fuel (item ∷ items) name f_item
      ≡ find_item drive fs fuel items name (some found)
unfolding find_item
find_item_take drive fs fuel item items name f_item found h k = ground arith

find_item-AllDiffer :
    (drive : Drive) (fs : FatPrivate) (fuel : ℕ) (items : List FatFile) (name : List ℕ)
    (f_item : Option FatItem)
    → AllDiffer items name
    → find_item drive fs fuel items name f_item ≡ some f_item
unfolding find_item
find_item-AllDiffer drive fs fuel [] name f_item h = refl
find_item-AllDiffer drive fs fuel (item ∷ items) name f_item h =
    find_item_skip drive fs fuel item items name f_item h.0
    ∙ find_item-AllDiffer drive fs fuel items name f_item h.1

-- The search of a directory returns the item of the only record whose name matches, up to the case
-- of letters, where that item can be loaded and the names of the others can be compared.
pub find_item_unique :
    (drive : Drive) (fs : FatPrivate) (fuel : ℕ) (before : List FatFile) (item : FatFile)
    (after : List FatFile) (name : List ℕ) (found : FatItem)
    → AllDiffer before name
    → name_test item name ≡ some true
    → AllDiffer after name
    → new_fat_item drive fs fuel item ≡ some found
    → find_item drive fs fuel (before ++ (item ∷ after)) name none ≡ some (some found)
find_item_unique drive fs fuel [] item after name found b h a n =
    find_item_take drive fs fuel item after name none found h n
    ∙ find_item-AllDiffer drive fs fuel after name (some found) a
find_item_unique drive fs fuel (other ∷ before) item after name found b h a n =
    find_item_skip drive fs fuel other (before ++ (item ∷ after)) name none b.0
    ∙ find_item_unique drive fs fuel before item after name found b.1 h a n

-- A path whose second part does not stand in the directory that the first part names, and that goes
-- on behind it, leads to a read through the null pointer.
pub missing_directory :
    (drive : Drive) (fs : FatPrivate) (fuel : ℕ) (root : List ℕ) (part next : List ℕ)
    (parts : List (List ℕ)) (items : List FatFile)
    → find_item drive fs fuel fs.root_directory root none ≡ some (some (item_directory items))
    → AllDiffer items part
    → get_directory_entry drive fs fuel root (part ∷ next ∷ parts) ≡ none
unfolding get_directory_entry follow
missing_directory drive fs fuel root part next parts items e h =
    rw (get_directory_entry, e, follow, find_item-AllDiffer drive fs fuel items part none h) refl
