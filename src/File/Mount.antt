-- ===== src/File/Mount.antt =====
-- A path that is mounted is found again by `fopen`, src/kernel/fs/file.c.
use git_os.Base.{
  ℕ, zero, suc, ◌+◌, ◌≤◌, ◌<◌, ◌≡◌, ◌≢◌, ◌⊎◌, refl, sym, ap, ◌∙◌, arith, true, false, ◌==◌, leb,
  Bool-cases, Option-cases, inl, inr, Option, none, some, List, [], ◌∷◌, length, length-append,
  take, drop, take_all, drop_all, update, ok, eq_of_some,
}
use mathlib.Core.List.{append-nil}
use mathlib.Core.Path.{subst}
use git_os.Base.Int.{pos, negsuc}
use git_os.Str.{strcmp, strncmp}
use git_os.Str.Copy.{IsText, strlen-buffer}
use git_os.Str.Begins.{Compared, strncmp-begins}
use git_os.File.Table.{free_slot-first}
use git_os.File.{
  Files, Filesystem, MountedFile, mount, free_slot, find_mount, find_prefix, prefix_at,
  open_mounted, same_path, terminated, reconstruct, fopen, max_path, max_mounted, is_invalid,
  file_get_mode_by_string,
}

-- The test for a mount tells texts apart.
same_path_lem :
    (a b : List ℕ)
    → IsText a
    → IsText b
    → ((a ≡ b) × (same_path a b ≡ some true)) ⊎ ((a ≢ b) × (same_path a b ≡ some false))
unfolding same_path strcmp
same_path_lem a b s t = from_compared (strncmp-begins a b (0 ∷ []) s t)
  where
    from_compared :
        Compared a b (strncmp (terminated a) (terminated b) (length a))
        → ((a ≡ b) × (same_path a b ≡ some true)) ⊎ ((a ≢ b) × (same_path a b ≡ some false))
    from_compared (inl (([], e), r)) =
        let same : a ≡ b = sym (e ∙ append-nil a) in
        let as_long : (length a == length b) ≡ true = ground (arith, ap length same) in
        inl (same, rw (strlen-buffer a [] s, strlen-buffer b [] t, strcmp, r, as_long) refl)
    from_compared (inl ((x ∷ more, e), r)) =
        let longer : length b ≡ length a + suc (length more) =
          ap length e ∙ length-append a (x ∷ more) in
        let as_long : (length a == length b) ≡ false = ground (arith, longer) in
        inr (
          (λ q. omega (arith, ap length q, longer)),
          rw (strlen-buffer a [] s, strlen-buffer b [] t, strcmp, r, as_long) refl,
        )
    from_compared (inr (n, (pos zero, r, z))) = absurd (z refl)
    from_compared (inr (n, (pos (suc m), r, z))) = inr (
      (λ q. n [] (sym q ∙ sym (append-nil a))),
      rw (strlen-buffer a [] s, strlen-buffer b [] t, strcmp, r) refl,
    )
    from_compared (inr (n, (negsuc m, r, z))) = inr (
      (λ q. n [] (sym q ∙ sym (append-nil a))),
      rw (strlen-buffer a [] s, strlen-buffer b [] t, strcmp, r) refl,
    )

same_path_self : (a : List ℕ) → IsText a → same_path a a ≡ some true
same_path_self a t = elim (same_path_lem a a t t) [ inl (e, r) ↦ r | inr (n, r) ↦ absurd (n refl) ]

same_path_other : (a b : List ℕ) → IsText a → IsText b → a ≢ b → same_path a b ≡ some false
same_path_other a b s t ne = elim (same_path_lem a b s t) [
  | inl (e, r) ↦ absurd (ne e)
  | inr (n, r) ↦ r
]

module _ {W P D : Type 0} where
  abbrev pub mounted_file : List ℕ → Filesystem W P D → P → MountedFile W P D
  mounted_file path fs p = record { filename = path; fs = fs; fs_data = p }

  none_ne : {st : Files W P D} → none ≢ some st
  none_ne e = cc

  -- The paths that are mounted are texts other than the given one.
  abbrev pub NotMounted : Files W P D → List ℕ → Type 0
  NotMounted st path =
      (j : ℕ) (m : MountedFile W P D)
      → st.mounted j ≡ some m
      → IsText m.filename × (path ≢ m.filename)

  -- The search passes the mounts of other paths and stops at the first of this one.
  find_mount-update :
      (st : Files W P D) (path : List ℕ) (fs : Filesystem W P D) (p : P) (i left idx : ℕ)
      → NotMounted st path
      → IsText path
      → idx ≤ i
      → i < idx + left
      → find_mount (update st.mounted i (some (mounted_file path fs p))) path left idx
        ≡ some (some (mounted_file path fs p))
  unfolding find_mount
  find_mount-update st path fs p i zero idx free t le lt = absurd (omega arith)
  find_mount-update st path fs p i (suc left) idx free t le lt = elim (Bool-cases (idx == i)) [
    | inl here ↦ rw (find_mount, here, same_path_self path t) refl
    | inr there ↦
        let later =
          find_mount-update st path fs p i left (idx + 1) free t (ground arith) (omega arith) in
        elim (Option-cases (st.mounted idx)) [
          | inl e ↦ rw (find_mount, there, e) later
          | inr (m, e) ↦
              let (text, ne) = free idx m e in
              rw (find_mount, there, e, same_path_other path m.filename t text ne) later
        ]
  ]

  find_prefix-found :
      (st : Files W P D) (parts : List (List ℕ)) (r : MountedFile W P D × List (List ℕ)) (count : ℕ)
      → prefix_at st parts count ≡ some (some r)
      → find_prefix st parts count ≡ some (some r)
  unfolding find_prefix
  find_prefix-found st parts r zero h = h
  find_prefix-found st parts r (suc count) h = rw (find_prefix, h) refl

  -- All the parts make the path, and none are left.
  prefix_at-whole :
      (st : Files W P D) (path : List ℕ) (parts : List (List ℕ)) (m : MountedFile W P D)
      → reconstruct parts ≡ path
      → length path < max_path
      → find_mount st.mounted path max_mounted 0 ≡ some (some m)
      → prefix_at st parts (length parts) ≡ some (some (m, []))
  unfolding prefix_at
  prefix_at-whole st path parts m whole short found =
      let text : reconstruct (take (length parts) parts) ≡ path =
        ap reconstruct (take_all parts) ∙ whole in
      let fits : leb max_path (length path) ≡ false = ground arith in
      let rest : drop (length parts) parts ≡ [] = drop_all (length parts) parts (omega arith) in
      rw (prefix_at, text, fits, found, rest) refl

  fopen-found :
      (st : Files W P D) (parts : List (List ℕ)) (str_mode : List ℕ) (m : MountedFile W P D)
      → 1 < length parts
      → is_invalid (file_get_mode_by_string str_mode) ≡ false
      → find_prefix st parts (length parts) ≡ some (some (m, []))
      → fopen st (ok parts) str_mode ≡ open_mounted st m [] (file_get_mode_by_string str_mode)
  unfolding fopen
  fopen-found st parts str_mode m several mode found =
      let enough : leb (length parts) 1 ≡ false = ground arith in rw (enough, mode, found) refl

  -- A path that is not mounted yet, and that is mounted, is opened by `fopen` with the driver and the
  -- private data of the mount, and with no parts left for the driver, whatever else is mounted: the
  -- parts are those of a parsed path of fewer than `MAX_PATH` bytes, more than one, and the mode is one
  -- of those that `fopen` knows.
  pub fopen-mount :
      (st st' : Files W P D) (path : List ℕ) (parts : List (List ℕ)) (str_mode : List ℕ)
      (fs : Filesystem W P D) (p : P)
      → mount st path fs p ≡ some st'
      → NotMounted st path
      → IsText path
      → length path < max_path
      → reconstruct parts ≡ path
      → 1 < length parts
      → is_invalid (file_get_mode_by_string str_mode) ≡ false
      → fopen st' (ok parts) str_mode
        ≡ open_mounted st' (mounted_file path fs p) [] (file_get_mode_by_string str_mode)
  unfolding mount
  fopen-mount st st' path parts str_mode fs p h free t short whole several mode =
      from_slot (free_slot st.mounted max_mounted 0) refl
    where
      from_slot :
          (slot : Option ℕ)
          → free_slot st.mounted max_mounted 0 ≡ slot
          → fopen st' (ok parts) str_mode
            ≡ open_mounted st' (mounted_file path fs p) [] (file_get_mode_by_string str_mode)
      from_slot none e = absurd (none_ne (sym (rw (mount, e) refl) ∙ h))
      from_slot (some i) e =
          let (empty, le, lt) = free_slot-first st.mounted max_mounted 0 i e in
          let m = mounted_file path fs p in
          let st'' : Files W P D = record st { mounted = update st.mounted i (some m) } in
          let mounted_now : st' ≡ st'' = eq_of_some (sym h ∙ rw (mount, e) refl) in
          let found =
            find_prefix-found st'' parts (m, []) (length parts)
              (prefix_at-whole st'' path parts m whole short
                (find_mount-update st path fs p i max_mounted 0 free t le lt)) in
          fopen-found st' parts str_mode m several mode (
            subst (λ (s : Files W P D). find_prefix s parts (length parts) ≡ some (some (m, [])))
              (sym mounted_now) found)

  -- A mount leaves the open files, and what lies behind the drivers.
  pub mount_keeps :
      (st st' : Files W P D) (path : List ℕ) (fs : Filesystem W P D) (p : P)
      → mount st path fs p ≡ some st'
      → (st'.file_descriptors ≡ st.file_descriptors) × (st'.world ≡ st.world)
  unfolding mount
  mount_keeps st st' path fs p h = elim (Option-cases (free_slot st.mounted max_mounted 0)) [
    | inl full ↦
        let panics : mount st path fs p ≡ none = rw (mount, full) refl in
        absurd (none_ne (sym panics ∙ h))
    | inr (i, free) ↦
        let m = mounted_file path fs p in
        let made : mount st path fs p
            ≡ some (record st { mounted = update st.mounted i (some m) }) =
          rw (mount, free) refl in
        let e = eq_of_some (sym h ∙ made) in
        (ap (λ (s : Files W P D). s.file_descriptors) e, ap (λ (s : Files W P D). s.world) e)
  ]
