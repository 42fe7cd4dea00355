-- ===== src/Process/Load/Reading.antt =====
-- The reading of a program's file by src/kernel/task/process.cpp leaves the table of processes.
use git_os.Base.{
  ℕ, refl, Option-cases, inl, inr, Option, none, some, Result, ok, err, List, [], ◌∷◌, write_at,
}
use mathlib.Core.Path.{subst}
use git_os.Fat.{FileStat}
use git_os.File.{Files, fopen, fstat, fread}
use git_os.Elf.{parse, get_entry}
use git_os.Process.Machine.{Machine, Process, with_process}
use git_os.Process.Segments.{kzalloc, new_elf}
use git_os.Process.Load.{Kernel, close_result, load_open, elf_load, load_data}
use git_os.Process.Load.Keeps.{SameTable, then-SameTable, kzalloc-SameTable, new_elf-SameTable}

module _ {W P D : Type 0} where
  -- Loading the file leaves the table, where it is no panic.
  abbrev Keeps : Machine → Option (ℕ × Result ℕ × Kernel W P D) → Type 0
  Keeps st none = Unit {0}
  Keeps st (some (m, res, k')) = SameTable st k'.machine

  close_result-Keeps :
      (elf : ℕ) (st st1 : Machine) (files : Files W P D) (res : Result ℕ)
      → SameTable st st1
      → Keeps st (some (close_result elf st1 files res))
  unfolding close_result
  close_result-Keeps elf st st1 files (err e) p = p
  close_result-Keeps elf st st1 files (ok n) p = p

  read-Keeps :
      (st st1 : Machine) (size data_at : ℕ) (r : Option (Result ℕ × List ℕ × Files W P D))
      → SameTable st st1
      → Keeps st (elim r [
        | none ↦ none
        | some (res1, out, files2) ↦
            let st2 : Machine = record st1 { bytes = write_at st1.bytes data_at out } in
            elim res1 [
              | err e ↦ some (close_result 0 st2 files2 (err e))
              | ok n ↦
                  let (elf, st3) = new_elf st2 data_at size in
                  some (close_result elf st3 files2 (ok n))
            ]
      ])
  read-Keeps st st1 size data_at none p = tt
  read-Keeps st st1 size data_at (some (err e, out, files2)) p =
      let st2 : Machine = record st1 { bytes = write_at st1.bytes data_at out } in
      close_result-Keeps 0 st st2 files2 (err e) p
  read-Keeps st st1 size data_at (some (ok n, out, files2)) p =
      let st2 : Machine = record st1 { bytes = write_at st1.bytes data_at out } in
      let (elf, st3) = new_elf st2 data_at size in
      close_result-Keeps elf st st3 files2 (ok n)
        (then-SameTable st st2 st3 p (new_elf-SameTable st2 data_at size))

  load_open-Keeps : (st : Machine) (files : Files W P D) (fd : ℕ) → Keeps st (load_open st files fd)
  unfolding load_open
  load_open-Keeps st files fd = from_stat (fstat files fd)
    where
      from_stat :
          (r : Result FileStat × Files W P D)
          → Keeps st (elim r.0 [
            | err e ↦ some (close_result 0 st r.1 (err e))
            | ok stat ↦
                let (data_at, st1) = kzalloc st stat.filesize in
                elim (fread r.1 stat.filesize 1 fd) [
                  | none ↦ none
                  | some (res1, out, files2) ↦
                      let st2 : Machine = record st1 { bytes = write_at st1.bytes data_at out } in
                      elim res1 [
                        | err e ↦ some (close_result 0 st2 files2 (err e))
                        | ok n ↦
                            let (elf, st3) = new_elf st2 data_at stat.filesize in
                            some (close_result elf st3 files2 (ok n))
                      ]
                ]
          ])
      from_stat (err e, files1) = close_result-Keeps 0 st st files1 (err e) (refl, refl)
      from_stat (ok stat, files1) =
          let (data_at, st1) = kzalloc st stat.filesize in
          read-Keeps st st1 stat.filesize data_at (fread files1 stat.filesize 1 fd)
            (kzalloc-SameTable st stat.filesize)

  elf_load-Keeps :
      (k : Kernel W P D) (path : Result (List (List ℕ))) → Keeps k.machine (elf_load k path)
  unfolding elf_load
  elf_load-Keeps k path = elim (Option-cases (fopen k.files path (b'r' ∷ 0 ∷ []))) [
    | inl panics ↦ rw (elf_load, panics) tt
    | inr ((res, files), e) ↦ rw (elf_load, e) (opened res files)
  ]
    where
      opened :
          (res : Result ℕ) (files : Files W P D)
          → Keeps k.machine (elim res [
            | err e ↦ some (close_result 0 k.machine files (err e))
            | ok fd ↦ load_open k.machine files fd
          ])
      opened (err e) files = close_result-Keeps 0 k.machine k.machine files (err e) (refl, refl)
      opened (ok fd) files = load_open-Keeps k.machine files fd

  abbrev pub KeepsResult : Machine → Option (Result (Unit {0}) × Kernel W P D) → Type 0
  KeepsResult st none = Unit {0}
  KeepsResult st (some (res, k')) = SameTable st k'.machine

  pub load_data-KeepsResult :
      (k : Kernel W P D) (path : Result (List (List ℕ))) (a : ℕ)
      → KeepsResult k.machine (load_data k path a)
  unfolding load_data
  load_data-KeepsResult k path a = elim (Option-cases (elf_load k path)) [
    | inl panics ↦ rw (load_data, panics) tt
    | inr ((m, res, k1), e) ↦
        rw (load_data, e) (taken m res k1 (subst (Keeps k.machine) e (elf_load-Keeps k path)))
  ]
    where
      taken :
          (m : ℕ) (res : Result ℕ) (k1 : Kernel W P D)
          → SameTable k.machine k1.machine
          → KeepsResult k.machine (elim res [
            | err e ↦ some (err e, k1)
            | ok n ↦
                let st = k1.machine in
                let file = st.elf_files m in
                let process : Process = record (st.processes a) {
                  elf = m;
                  elf_entry = get_entry st.bytes file;
                } in
                some (parse st.bytes file, record k1 { machine = with_process st a process })
          ])
      taken m (err e) k1 p = p
      taken m (ok n) k1 p = p
