-- ===== src/Process/Load/Descriptor.antt =====
-- The files that `elf_load` of src/kernel/task/process.cpp opens, and what it does with their numbers.
use git_os.Base.{
  ℕ, ◌+◌, ◌-◌, ◌<◌, ◌≡◌, ◌≢◌, refl, sym, ap, ◌∙◌, arith, Option, none, some, List, [], ◌∷◌, Result,
  ok, err, inl, inr, eq_of_some, update_self, update_ne, Bool-cases, ◌==◌, write_at,
}
use git_os.File.{Files, OpenFile, fclose, file_get_descriptor, fopen, fstat, fread}
use git_os.Fat.{FileStat}
use git_os.File.Table.{IsOpened, fopen-IsOpened}
use git_os.File.Calls.{
  IsNumbered, IsNumbered-same, fstat_keeps, fread_keeps, fclose_other, fclose_gone,
}
use git_os.Process.Segments.{kzalloc, new_elf}
use git_os.Process.Machine.{Machine}
use git_os.Process.Load.{Kernel, close_result, load_open, elf_load}

abbrev Loaded : Type 0 → Type 0 → Type 0 → Type 0
Loaded W P D = ℕ × Result ℕ × Kernel W P D

module _ {W P D : Type 0} where
  abbrev files_of : Loaded W P D → Files W P D
  files_of (_, _, k) = k.files

  -- The number `n` is closed, and the rest is open as before.
  abbrev IsClosed : ℕ → Files W P D → Kernel W P D → Type 0
  IsClosed n files k' =
      ((j : ℕ) → n ≢ j + 1 → k'.files.file_descriptors j ≡ files.file_descriptors j)
      × (file_get_descriptor k'.files n ≡ none)

  along :
      (n : ℕ) (files files1 : Files W P D) (k' : Kernel W P D)
      → files1.file_descriptors ≡ files.file_descriptors
      → IsClosed n files1 k'
      → IsClosed n files k'
  along n files files1 k' same c = (λ j ne. c.0 j ne ∙ ap (λ f. f j) same, c.1)

  -- The number that is closed at the end is what the read gave back.
  close_result-IsClosed :
      (elf n m : ℕ) (st : Machine) (files : Files W P D) (res : Result ℕ) (k' : Kernel W P D)
      → IsNumbered files
      → ◌≡◌ {A = Option (Loaded W P D)} (some (close_result elf st files res)) (some (m, ok n, k'))
      → IsClosed n files k'
  unfolding close_result
  close_result-IsClosed elf n m st files (err e) k' numbered h =
      absurd (err_ne (ap (λ (r : Loaded W P D). r.1) (eq_of_some h)))
    where
      err_ne : err e ≢ ok n
      err_ne q = cc
  close_result-IsClosed elf n m st files (ok i) k' numbered h =
      let q = eq_of_some h in
      let same : i ≡ n = ok_eq (ap (λ (r : Loaded W P D). r.1) q) in
      let after : (fclose files i).1 ≡ k'.files = ap files_of q in
      (
        λ j ne.
            ap (λ (f : Files W P D). f.file_descriptors j) (sym after)
            ∙ fclose_other files i j numbered (λ e. ne (sym same ∙ e)),
        ap (λ (f : Files W P D). file_get_descriptor f n) (sym after)
            ∙ ap (file_get_descriptor (fclose files i).1) (sym same)
            ∙ fclose_gone files i numbered,
      )
    where
      ok_eq : ◌≡◌ {A = Result ℕ} (ok i) (ok n) → i ≡ n
      ok_eq e = cc

  load_open-IsClosed :
      (st : Machine) (files : Files W P D) (fd m n : ℕ) (k' : Kernel W P D)
      → IsNumbered files
      → load_open st files fd ≡ some (m, ok n, k')
      → IsClosed n files k'
  unfolding load_open
  load_open-IsClosed st files fd m n k' numbered h =
      from_stat (fstat files fd) (fstat_keeps files fd) h
    where
      none_ne : {r : Loaded W P D} → none ≢ some r
      none_ne e = cc

      from_read :
          (size : ℕ) (st1 : Machine) (data_at : ℕ) (files1 : Files W P D)
          (r : Option (Result ℕ × List ℕ × Files W P D))
          → fread files1 size 1 fd ≡ r
          → files1.file_descriptors ≡ files.file_descriptors
          → ◌≡◌ {A = Option (Loaded W P D)}
              (elim r [
                | none ↦ none
                | some (res1, out, files2) ↦
                    let st2 : Machine = record st1 { bytes = write_at st1.bytes data_at out } in
                    elim res1 [
                      | err e ↦ some (close_result 0 st2 files2 (err e))
                      | ok i ↦
                          let (elf, st3) = new_elf st2 data_at size in
                          some (close_result elf st3 files2 (ok i))
                    ]
              ])
              (some (m, ok n, k'))
          → IsClosed n files k'
      from_read size st1 data_at files1 none e same q = absurd (none_ne q)
      from_read size st1 data_at files1 (some (err x, out, files2)) e same q =
          let kept = fread_keeps files1 size 1 fd (err x) out files2 e ∙ same in
          let st2 : Machine = record st1 { bytes = write_at st1.bytes data_at out } in
          along n files files2 k' kept (
            close_result-IsClosed 0 n m st2 files2 (err x) k'
              (IsNumbered-same files files2 kept numbered) q)
      from_read size st1 data_at files1 (some (ok i, out, files2)) e same q =
          let kept = fread_keeps files1 size 1 fd (ok i) out files2 e ∙ same in
          let st2 : Machine = record st1 { bytes = write_at st1.bytes data_at out } in
          let (elf, st3) = new_elf st2 data_at size in
          along n files files2 k' kept (
            close_result-IsClosed elf n m st3 files2 (ok i) k'
              (IsNumbered-same files files2 kept numbered) q)

      from_stat :
          (r : Result FileStat × Files W P D)
          → r.1.file_descriptors ≡ files.file_descriptors
          → ◌≡◌ {A = Option (Loaded W P D)}
              (elim r.0 [
                | err e ↦ some (close_result 0 st r.1 (err e))
                | ok stat ↦
                    let (data_at, st1) = kzalloc st stat.filesize in
                    elim (fread r.1 stat.filesize 1 fd) [
                      | none ↦ none
                      | some (res1, out, files2) ↦
                          let st2 : Machine = record st1 {
                            bytes = write_at st1.bytes data_at out;
                          } in
                          elim res1 [
                            | err e ↦ some (close_result 0 st2 files2 (err e))
                            | ok i ↦
                                let (elf, st3) = new_elf st2 data_at stat.filesize in
                                some (close_result elf st3 files2 (ok i))
                          ]
                    ]
              ])
              (some (m, ok n, k'))
          → IsClosed n files k'
      from_stat (err x, files1) same q = along n files files1 k' same (
          close_result-IsClosed 0 n m st files1 (err x) k'
            (IsNumbered-same files files1 same numbered) q)
      from_stat (ok stat, files1) same q =
          let (data_at, st1) = kzalloc st stat.filesize in
          from_read stat.filesize st1 data_at files1 (fread files1 stat.filesize 1 fd) refl same q

  -- Where the descriptors stand at the places of their numbers, and `elf_load` succeeds with a number that
  -- the read gave back and that is not the number of the file: the file that was opened is still open
  -- behind it, no file is open with the number that the read gave back, and the place of every number but
  -- this one is as `fopen` left it.
  pub elf_load-keeps_open :
      (k k' : Kernel W P D) (path : Result (List (List ℕ))) (fd m n j : ℕ) (files : Files W P D)
      → IsNumbered k.files
      → fopen k.files path (b'r' ∷ 0 ∷ []) ≡ some (ok fd, files)
      → elf_load k path ≡ some (m, ok n, k')
      → n ≢ fd
      → n ≢ j + 1
      → (k'.files.file_descriptors (fd - 1) ≢ none)
        × (file_get_descriptor k'.files n ≡ none)
        × (k'.files.file_descriptors j ≡ files.file_descriptors j)
  unfolding elf_load
  elf_load-keeps_open k k' path fd m n j files numbered opened h ne other =
      let it = fopen-IsOpened k.files files path (b'r' ∷ 0 ∷ []) fd opened in
      let there : files.file_descriptors (fd - 1) ≡ some it.opened =
        ap (λ f. f (fd - 1)) it.entered
        ∙ update_self k.files.file_descriptors (fd - 1) (some it.opened) in
      let loading : load_open k.machine files fd ≡ some (m, ok n, k') =
        sym (rw (elf_load, opened) refl) ∙ h in
      let (kept, gone) = load_open-IsClosed k.machine files fd m n k' (after it) loading in
      (
        λ closed. none_ne (sym closed ∙ kept (fd - 1) (λ q. ne (q ∙ above it.positive)) ∙ there),
        gone,
        kept j other,
      )
    where
      none_ne : {x : OpenFile W P D} → none ≢ some x
      none_ne e = cc

      above : 0 < fd → fd - 1 + 1 ≡ fd
      above p = omega arith

      after : IsOpened k.files fd files → IsNumbered files
      after it i desc at = elim (Bool-cases (i == fd - 1)) [
        | inl same ↦
            let here : i ≡ fd - 1 = ground arith in
            let it_is : it.opened ≡ desc = eq_of_some (
              sym (update_self k.files.file_descriptors (fd - 1) (some it.opened))
              ∙ sym (ap (λ f. f (fd - 1)) it.entered)
              ∙ ap files.file_descriptors (sym here)
              ∙ at) in
            let spot = above it.positive in
            ap (λ d. d.index) (sym it_is) ∙ it.numbered ∙ sym (rw (here) spot)
        | inr other ↦
            let away : i ≢ fd - 1 = ground arith in
            numbered i desc (
              sym (update_ne k.files.file_descriptors (fd - 1) i (some it.opened) away)
              ∙ sym (ap (λ f. f i) it.entered)
              ∙ at)
      ]
