-- ===== src/File/Calls.antt =====
-- The calls of src/kernel/fs/file.c on a number that is open go to its driver.
use git_os.Base.{
  ℕ, ◌+◌, ◌-◌, ◌<◌, ◌≡◌, ◌≢◌, refl, sym, ◌∙◌, arith, false, Option, none, some, List, Bool-cases,
  Option-cases, eq_of_some, ap, err, einvarg, [], update, update_ne, update_self, inl, inr, ◌==◌,
  leb, ◌||◌, Result,
}
use git_os.File.{
  Files, OpenFile, file_get_descriptor, file_free_descriptor, fread, fwrite, fstat, fclose,
  max_filedescriptors, is_below_one,
}

-- The numbers do not hang on what lies behind the drivers.
pub file_get_descriptor-world :
    {W P D : Type 0} (st : Files W P D) (w : W) (fd : ℕ)
    → file_get_descriptor (record st { world = w }) fd ≡ file_get_descriptor st fd
unfolding file_get_descriptor
file_get_descriptor-world st w fd = refl

module _ {W P D : Type 0} (st : Files W P D) (fd : ℕ) (desc : OpenFile W P D)
    (found : file_get_descriptor st fd ≡ some desc) where
  not_none : none ≢ some desc
  not_none e = cc

  pub open_positive : is_below_one fd ≡ false
  unfolding file_get_descriptor
  open_positive = elim (Bool-cases (fd == 0 || leb max_filedescriptors fd)) [
    | inl bad ↦ absurd (not_none (sym (rw (file_get_descriptor, bad) refl) ∙ found))
    | inr good ↦ ground arith
  ]

  pub open_at : st.file_descriptors (fd - 1) ≡ some desc
  unfolding file_get_descriptor
  open_at = elim (Bool-cases (fd == 0 || leb max_filedescriptors fd)) [
    | inl bad ↦ absurd (not_none (sym (rw (file_get_descriptor, bad) refl) ∙ found))
    | inr good ↦ sym (rw (file_get_descriptor, good) refl) ∙ found
  ]

  module _ (size nmemb : ℕ) (positive : 0 < size) (some_blocks : 0 < nmemb) where
    pub fwrite_open :
        (input : List ℕ)
        → let (res, world') =
            desc.filesystem.fs_write st.world desc.private_fs desc.private_fs_descriptor size nmemb
              input in
          fwrite st input size nmemb fd ≡ some (res, record st { world = world' })
    unfolding fwrite
    fwrite_open input =
        let good : (size == 0 || nmemb == 0 || is_below_one fd) ≡ false =
          ground (arith, open_positive) in
        rw (good, found) refl

    pub fread_open :
        let (res, out, world') =
          desc.filesystem.fs_read st.world desc.private_fs desc.private_fs_descriptor size nmemb in
        fread st size nmemb fd ≡ some (res, out, record st { world = world' })
    unfolding fread
    fread_open =
        let good : (size == 0 || nmemb == 0 || is_below_one fd) ≡ false =
          ground (arith, open_positive) in
        rw (good, found) refl

-- An open number is one above the place of its descriptor.
pub file_get_descriptor-open :
    {W P D : Type 0} (st : Files W P D) (i : ℕ)
    → i + 1 < max_filedescriptors
    → file_get_descriptor st (i + 1) ≡ st.file_descriptors i
unfolding file_get_descriptor
file_get_descriptor-open st i h =
    let inside : (i + 1 == 0 || leb max_filedescriptors (i + 1)) ≡ false = ground arith in
    let place : i + 1 - 1 ≡ i = omega arith in rw (inside, place) refl

-- The descriptors stand at the places that their numbers say.
abbrev pub IsNumbered : {W P D : Type 0} → Files W P D → Type 0
IsNumbered {W} {P} {D} st =
    (i : ℕ) (desc : OpenFile W P D) → st.file_descriptors i ≡ some desc → desc.index ≡ i + 1

module _ {W P D : Type 0} (st : Files W P D) where
  pub fstat_keeps : (fd : ℕ) → (fstat st fd).1.file_descriptors ≡ st.file_descriptors
  unfolding fstat
  fstat_keeps fd = elim (Option-cases (file_get_descriptor st fd)) [
    | inl e ↦ rw (fstat, e) refl
    | inr (desc, e) ↦ rw (fstat, e) refl
  ]

  pub fread_keeps :
      (size nmemb fd : ℕ) (res : Result ℕ) (out : List ℕ) (st' : Files W P D)
      → fread st size nmemb fd ≡ some (res, out, st')
      → st'.file_descriptors ≡ st.file_descriptors
  unfolding fread
  fread_keeps size nmemb fd res out st' h =
      elim (Bool-cases (size == 0 || nmemb == 0 || is_below_one fd)) [
        | inl bad ↦
            let refused : fread st size nmemb fd ≡ some (err einvarg, [], st) =
              rw (fread, bad) refl in
            sym (ap last_table (eq_of_some (sym refused ∙ h)))
        | inr good ↦ elim (Option-cases (file_get_descriptor st fd)) [
          | inl e ↦
              let panics : fread st size nmemb fd ≡ none = rw (fread, good, e) refl in
              absurd (none_ne_some (sym panics ∙ h))
          | inr (desc, e) ↦ opened desc e good
        ]
      ]
    where
      last_table : Result ℕ × List ℕ × Files W P D → ℕ → Option (OpenFile W P D)
      last_table (_, _, s) = s.file_descriptors

      none_ne_some : {x : Result ℕ × List ℕ × Files W P D} → none ≢ some x
      none_ne_some e = cc

      opened :
          (desc : OpenFile W P D)
          → file_get_descriptor st fd ≡ some desc
          → (size == 0 || nmemb == 0 || is_below_one fd) ≡ false
          → st'.file_descriptors ≡ st.file_descriptors
      opened desc e good =
          let (res1, out1, world1) =
            desc.filesystem.fs_read st.world desc.private_fs desc.private_fs_descriptor size
              nmemb in
          let done : fread st size nmemb fd ≡ some (res1, out1, record st { world = world1 }) =
            rw (fread, good, e) refl in
          sym (ap last_table (eq_of_some (sym done ∙ h)))

  -- Closing a number leaves the descriptors of the others.
  pub fclose_other :
      (n j : ℕ)
      → IsNumbered st
      → n ≢ j + 1
      → (fclose st n).1.file_descriptors j ≡ st.file_descriptors j
  unfolding fclose file_free_descriptor
  fclose_other n j numbered ne = elim (Option-cases (file_get_descriptor st n)) [
    | inl e ↦ rw (fclose, e) refl
    | inr (desc, e) ↦
        let positive : is_below_one n ≡ false = open_positive st n desc e in
        let above : 0 < n = ground arith in
        let at : st.file_descriptors (n - 1) ≡ some desc = open_at st n desc e in
        let place : desc.index ≡ n - 1 + 1 = numbered (n - 1) desc at in
        let other : desc.index - 1 ≢ j = λ q. ne (omega arith) in
        let closed : (fclose st n).1.file_descriptors
            ≡ update st.file_descriptors (desc.index - 1) none =
          rw (fclose, e) refl in
        ap (λ f. f j) closed
        ∙ update_ne st.file_descriptors (desc.index - 1) j none (λ q. other (sym q))
  ]

-- A number that was closed has no descriptor.
pub fclose_gone :
    {W P D : Type 0} (st : Files W P D) (n : ℕ)
    → IsNumbered st
    → file_get_descriptor (fclose st n).1 n ≡ none
unfolding fclose file_free_descriptor file_get_descriptor
fclose_gone st n numbered = elim (Option-cases (file_get_descriptor st n)) [
  | inl e ↦ rw (fclose, e) e
  | inr (desc, e) ↦
      let at : st.file_descriptors (n - 1) ≡ some desc = open_at st n desc e in
      let place : desc.index ≡ n - 1 + 1 = numbered (n - 1) desc at in
      let there : desc.index - 1 ≡ n - 1 = omega arith in
      let closed : (fclose st n).1.file_descriptors ≡ update st.file_descriptors (n - 1) none =
        rw (fclose, e, there) refl in
      let gone : (fclose st n).1.file_descriptors (n - 1) ≡ none =
        ap (λ f. f (n - 1)) closed ∙ update_self st.file_descriptors (n - 1) none in
      elim (Bool-cases (n == 0 || leb max_filedescriptors n)) [
        | inl bad ↦ rw (file_get_descriptor, bad) refl
        | inr good ↦ rw (file_get_descriptor, good) gone
      ]
]

-- The number stands on the descriptors alone.
pub IsNumbered-same :
    {W P D : Type 0} (st st' : Files W P D)
    → st'.file_descriptors ≡ st.file_descriptors
    → IsNumbered st
    → IsNumbered st'
IsNumbered-same st st' e numbered i desc h = numbered i desc (sym (ap (λ f. f i) e) ∙ h)
