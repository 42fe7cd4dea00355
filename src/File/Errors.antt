-- ===== src/File/Errors.antt =====
-- A number after its file is closed, in src/kernel/fs/file.c.
use git_os.Base.{
  ℕ, ◌-◌, ◌<◌, ◌≡◌, refl, ◌∙◌, none, some, List, ◌||◌, ◌==◌, false, Result, ok, err, eio, arith,
  leb,
}
use git_os.Fat.{SeekMode}
use git_os.File.{
  Files, file_get_descriptor, fopen, fread, fwrite, fseek, fstat, fclose, is_below_one,
  max_filedescriptors,
}
use git_os.File.Table.{fclose-fopen}

usable :
    (size nmemb fd : ℕ)
    → 0 < size
    → 0 < nmemb
    → 0 < fd
    → fd < max_filedescriptors
    → (size == 0 || nmemb == 0 || is_below_one fd) ≡ false
usable size nmemb fd a b c d = ground arith

module _ {W P D : Type 0} where
  -- For a number whose file is not open, the guards of every call.
  not_open :
      (st : Files W P D) (fd offset size nmemb : ℕ) (whence : SeekMode) (input : List ℕ)
      → file_get_descriptor st fd ≡ none
      → 0 < fd
      → fd < max_filedescriptors
      → 0 < size
      → 0 < nmemb
      → (fseek st fd offset whence ≡ (err eio, st))
        × (fstat st fd ≡ (err eio, st))
        × (fclose st fd ≡ (err eio, st))
        × (fread st size nmemb fd ≡ none)
        × (fwrite st input size nmemb fd ≡ none)
  unfolding fseek fstat fclose fread fwrite
  not_open st fd offset size nmemb whence input h p q a b = (
    rw (fseek, h) refl,
    rw (fstat, h) refl,
    rw (fclose, h) refl,
    rw (fread, usable size nmemb fd a b p q, h) refl,
    rw (fwrite, usable size nmemb fd a b p q, h) refl,
  )

  empty_place :
      (st : Files W P D) (fd : ℕ)
      → 0 < fd
      → fd < max_filedescriptors
      → st.file_descriptors (fd - 1) ≡ none
      → file_get_descriptor st fd ≡ none
  unfolding file_get_descriptor
  empty_place st fd p q h =
      let inside : (fd == 0 || leb max_filedescriptors fd) ≡ false = ground arith in
      rw (file_get_descriptor, inside) h

  -- A number below `MAX_FILEDESCRIPTORS` that `fopen` gave out and `fclose` then took back is of no use
  -- any more: seeking with it, its status and closing it again give -EIO and change nothing, but reading or
  -- writing a block that is not empty goes through the null pointer.
  pub calls-fclose-fopen :
      (st st' : Files W P D) (path : Result (List (List ℕ))) (str_mode : List ℕ)
      (fd offset size nmemb : ℕ) (whence : SeekMode) (input : List ℕ)
      → fopen st path str_mode ≡ some (ok fd, st')
      → fd < max_filedescriptors
      → 0 < size
      → 0 < nmemb
      → let after = (fclose st' fd).1 in
        (fseek after fd offset whence ≡ (err eio, after))
        × (fstat after fd ≡ (err eio, after))
        × (fclose after fd ≡ (err eio, after))
        × (fread after size nmemb fd ≡ none)
        × (fwrite after input size nmemb fd ≡ none)
  calls-fclose-fopen st st' path str_mode fd offset size nmemb whence input h q a b =
      let (p, was_free, back) = fclose-fopen st st' path str_mode fd (fd - 1) h q in
      not_open (fclose st' fd).1 fd offset size nmemb whence input
        (empty_place (fclose st' fd).1 fd p q (back ∙ was_free)) p q a b
