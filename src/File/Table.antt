-- ===== src/File/Table.antt =====
-- The table of the open files, src/kernel/fs/file.c: what opening and closing do to it.
use git_os.Base.{
  ℕ, zero, suc, ◌+◌, ◌-◌, ◌≤◌, ◌<◌, ◌≡◌, ◌≢◌, refl, sym, ap, ◌∙◌, arith, Bool, true, false, Option,
  none, some, List, Result, ok, err, eio, einvarg, enomem, length, Option-cases, inl, inr, update,
  update_self, eq_of_some, ◌||◌, ◌==◌, leb, if◌then◌else◌,
}
use git_os.File.{
  Files, OpenFile, MountedFile, Filesystem, FileMode, free_slot, file_new_descriptor,
  file_get_descriptor, file_free_descriptor, open_mounted, fopen, fclose, find_prefix,
  file_get_mode_by_string, is_invalid, max_filedescriptors,
}

-- The search finds the first free place.
pub free_slot-first {ℓ} :
    {A : Type ℓ} (slots : ℕ → Option A) (left i j : ℕ)
    → free_slot slots left i ≡ some j
    → (slots j ≡ none) × (i ≤ j) × (j < i + left)
unfolding free_slot
free_slot-first slots zero i j h = ground arith
free_slot-first slots (suc left) i j h = elim (Option-cases (slots i)) [
  | inl e ↦ ground arith
  | inr (a, e) ↦ later (free_slot-first slots left (i + 1) j (ground arith))
]
  where
    later :
        (slots j ≡ none) × (i + 1 ≤ j) × (j < i + 1 + left)
        → (slots j ≡ none) × (i ≤ j) × (j < i + suc left)
    later (e, a, b) = (e, omega arith, omega arith)

in_range :
    (fd : ℕ) → 0 < fd → fd < max_filedescriptors → (fd == 0 || leb max_filedescriptors fd) ≡ false
in_range fd p h = ground arith

module _ {W P D : Type 0} where
  -- What a descriptor that is given out is.
  pub record IsOpened (st : Files W P D) (fd : ℕ) (st' : Files W P D) : Type 0 where
    pub opened : OpenFile W P D
    pub numbered : opened.index ≡ fd
    pub positive : 0 < fd
    pub bounded : fd ≤ max_filedescriptors
    pub was_free : st.file_descriptors (fd - 1) ≡ none
    pub entered : st'.file_descriptors ≡ update st.file_descriptors (fd - 1) (some opened)
    pub same_mounts : st'.mounted ≡ st.mounted

  ok_eq :
      {fd i : ℕ} {a b : Files W P D}
      → ◌≡◌ {A = Result ℕ × Files W P D} (ok i, a) (ok fd, b)
      → i ≡ fd
  ok_eq e = cc

  err_ne :
      {fd : ℕ} {a b : Files W P D} → ◌≢◌ {A = Result ℕ × Files W P D} (err enomem, a) (ok fd, b)
  err_ne q = cc

  made :
      (st st' : Files W P D) (fs : Filesystem W P D) (d : D) (p : P) (w : W) (fd : ℕ)
      (slot : Option ℕ)
      → free_slot st.file_descriptors max_filedescriptors 0 ≡ slot
      → file_new_descriptor (record st { world = w }) fs d p ≡ (ok fd, st')
      → IsOpened st fd st'
  unfolding file_new_descriptor
  made st st' fs d p w fd none e h =
      let full : ◌≡◌ {A = Result ℕ × Files W P D}
          (file_new_descriptor (record st { world = w }) fs d p)
          (err enomem, record st { world = w }) =
        rw (file_new_descriptor, e) refl in
      absurd (err_ne (sym full ∙ h))
  made st st' fs d p w fd (some i) e h =
      let desc : OpenFile W P D = record {
        index = i + 1;
        filesystem = fs;
        private_fs_descriptor = d;
        private_fs = p;
      } in
      let st'' : Files W P D = record st {
        file_descriptors = update st.file_descriptors i (some desc);
        world = w;
      } in
      let made_it : ◌≡◌ {A = Result ℕ × Files W P D}
          (file_new_descriptor (record st { world = w }) fs d p) (ok (i + 1), st'') =
        rw (file_new_descriptor, e) refl in
      let q = sym made_it ∙ h in
      let n : i + 1 ≡ fd = ok_eq q in
      let (free, le, lt) = free_slot-first st.file_descriptors max_filedescriptors 0 i e in
      let place : i ≡ fd - 1 = omega arith in
      record {
        opened = desc;
        numbered = n;
        positive = omega arith;
        bounded = omega arith;
        was_free = ap st.file_descriptors (sym place) ∙ free;
        entered =
            sym (ap (λ (r : Result ℕ × Files W P D). r.1.file_descriptors) q)
            ∙ ap (λ k. update st.file_descriptors k (some desc)) place;
        same_mounts = sym (ap (λ (r : Result ℕ × Files W P D). r.1.mounted) q);
      }

  -- Opening at a mount, and the whole of `fopen`.
  open_mounted-IsOpened :
      (st st' : Files W P D) (m : MountedFile W P D) (parts : List (List ℕ)) (mode : FileMode)
      (fd : ℕ)
      → open_mounted st m parts mode ≡ some (ok fd, st')
      → IsOpened st fd st'
  unfolding open_mounted
  open_mounted-IsOpened st st' m parts mode fd h =
      from_open (m.fs.fs_open st.world m.fs_data parts mode) h
    where
      from_made :
          (r : Result ℕ × Files W P D)
          → ◌≡◌ {A = Option (Result ℕ × Files W P D)}
              (elim r.0 [ err e ↦ none | ok n ↦ some (ok n, r.1) ])
              (some (ok fd, st'))
          → r ≡ (ok fd, st')
      from_made (err e, s) q = ground arith
      from_made (ok n, s) q = eq_of_some q

      from_open :
          (r : Option D × W)
          → ◌≡◌ {A = Option (Result ℕ × Files W P D)}
              (elim r.0 [
                | none ↦ none
                | some d ↦
                    elim (file_new_descriptor (record st { world = r.1 }) m.fs d m.fs_data).0 [
                      | err e ↦ none
                      | ok n ↦ some (
                        ok n,
                        (file_new_descriptor (record st { world = r.1 }) m.fs d m.fs_data).1,
                      )
                    ]
              ])
              (some (ok fd, st'))
          → IsOpened st fd st'
      from_open (none, w) q = ground arith
      from_open (some d, w) q =
          made st st' m.fs d m.fs_data w fd (free_slot st.file_descriptors max_filedescriptors 0)
            refl (from_made (file_new_descriptor (record st { world = w }) m.fs d m.fs_data) q)

  pub fopen-IsOpened :
      (st st' : Files W P D) (path : Result (List (List ℕ))) (str_mode : List ℕ) (fd : ℕ)
      → fopen st path str_mode ≡ some (ok fd, st')
      → IsOpened st fd st'
  unfolding fopen
  fopen-IsOpened st st' (err e) str_mode fd h = ground arith
  fopen-IsOpened st st' (ok parts) str_mode fd h =
      from_search (leb (length parts) 1) (is_invalid (file_get_mode_by_string str_mode))
        (find_prefix st parts (length parts)) (file_get_mode_by_string str_mode) h
    where
      from_search :
          (b c : Bool) (r : Option (Option (MountedFile W P D × List (List ℕ)))) (mode : FileMode)
          → ◌≡◌ {A = Option (Result ℕ × Files W P D)}
              (if b then some (err einvarg, st) else if c then some (err einvarg, st) else elim r [
                | none ↦ none
                | some none ↦ some (err einvarg, st)
                | some (some (m, rest)) ↦ open_mounted st m rest mode
              ])
              (some (ok fd, st'))
          → IsOpened st fd st'
      from_search true c r mode q = ground arith
      from_search false true r mode q = ground arith
      from_search false false none mode q = ground arith
      from_search false false (some none) mode q = ground arith
      from_search false false (some (some (m, rest))) mode q =
          open_mounted-IsOpened st st' m rest mode fd q

  descriptor_found :
      (st st' : Files W P D) (fd : ℕ) (o : IsOpened st fd st')
      → fd < max_filedescriptors
      → file_get_descriptor st' fd ≡ some o.opened
  unfolding file_get_descriptor
  descriptor_found st st' fd o h =
      let inside : (fd == 0 || leb max_filedescriptors fd) ≡ false = in_range fd o.positive h in
      rw (file_get_descriptor, inside)
        (ap (λ (f : ℕ → Option (OpenFile W P D)). f (fd - 1)) o.entered
          ∙ update_self st.file_descriptors (fd - 1) (some o.opened))

  closed :
      (st : Files W P D) (fd : ℕ) (desc : OpenFile W P D)
      → file_get_descriptor st fd ≡ some desc
      → (fclose st fd).1.file_descriptors ≡ update st.file_descriptors (desc.index - 1) none
  unfolding fclose file_free_descriptor
  closed st fd desc h = rw (fclose, h) refl

  some_ne : {a : OpenFile W P D} → some a ≢ none
  some_ne e = cc

  update_back :
      (f : ℕ → Option (OpenFile W P D)) (i j : ℕ) (v : Option (OpenFile W P D))
      → f i ≡ none
      → update (update f i v) i none j ≡ f j
  update_back f i j v h = ground arith

  -- `fopen` that succeeds with a number below `MAX_FILEDESCRIPTORS` took a place of the table that was
  -- free, that of the number, and `fclose` of the number gives back the table as it was.
  pub fclose-fopen :
      (st st' : Files W P D) (path : Result (List (List ℕ))) (str_mode : List ℕ) (fd i : ℕ)
      → fopen st path str_mode ≡ some (ok fd, st')
      → fd < max_filedescriptors
      → (0 < fd)
        × (st.file_descriptors (fd - 1) ≡ none)
        × ((fclose st' fd).1.file_descriptors i ≡ st.file_descriptors i)
  fclose-fopen st st' path str_mode fd i h small =
      let o = fopen-IsOpened st st' path str_mode fd h in
      let found = descriptor_found st st' fd o small in
      (
        o.positive,
        o.was_free,
        ap (λ (f : ℕ → Option (OpenFile W P D)). f i)
              (closed st' fd o.opened found
                ∙ ap (λ k. update st'.file_descriptors (k - 1) none) o.numbered
                ∙ ap (λ f. update f (fd - 1) none) o.entered)
            ∙ update_back st.file_descriptors (fd - 1) i (some o.opened) o.was_free,
      )

  -- The last descriptor that `fopen` gives out, the number `MAX_FILEDESCRIPTORS`, cannot be closed:
  -- `fclose` returns -EIO and leaves its place taken.
  pub fclose_last :
      (st st' : Files W P D) (path : Result (List (List ℕ))) (str_mode : List ℕ)
      → fopen st path str_mode ≡ some (ok max_filedescriptors, st')
      → (fclose st' max_filedescriptors ≡ (err eio, st'))
        × (st'.file_descriptors (max_filedescriptors - 1) ≢ none)
  unfolding fclose file_get_descriptor
  fclose_last st st' path str_mode h =
      let o = fopen-IsOpened st st' path str_mode max_filedescriptors h in
      (
        refl,
        λ e. some_ne (
            sym (
              ap (λ (f : ℕ → Option (OpenFile W P D)). f (max_filedescriptors - 1)) o.entered
              ∙ update_self st.file_descriptors (max_filedescriptors - 1) (some o.opened))
            ∙ e),
      )
