-- ===== src/File/Tests.antt =====
-- A driver that opens everything, and the theorems on the open files applied to it.
use git_os.Base.{
  ℕ, ◌+◌, ◌-◌, ◌<◌, ◌≡◌, ◌≢◌, refl, Option, none, some, List, [], ◌∷◌, ◌==◌, ltb, if◌then◌else◌, ok,
  err, eio, arith, update,
}
use git_os.Str.{strlen, strlen_from, strcmp, strncmp}
use git_os.Fat.{seek_set}
use git_os.File.{
  Files, Filesystem, OpenFile, MountedFile, mount, fopen, fread, fwrite, fseek, fstat, fclose,
  file_new_descriptor, open_mounted, find_prefix, prefix_at, find_mount, same_path, reconstruct,
  file_get_mode_by_string, free_slot,
}
use git_os.File.Table.{fclose-fopen}
use git_os.File.Errors.{calls-fclose-fopen}
use git_os.Str.Copy.{IsText}
use git_os.File.Mount.{fopen-mount, mounted_file}

abbrev driver : Filesystem (Unit {0}) (Unit {0}) ℕ
driver = record {
  fs_open = λ w p parts mode. (some 7, w);
  fs_read = λ w p d size nmemb. (ok nmemb, [], w);
  fs_write = λ w p d size nmemb input. (ok nmemb, w);
  fs_seek = λ w d offset whence. (ok tt, w);
  fs_stat = λ w d. (ok (record { flags = 0; filesize = 0 }), w);
  fs_close = λ w d. (ok tt, w);
}

abbrev desc : ℕ → OpenFile (Unit {0}) (Unit {0}) ℕ
desc n = record { index = n; filesystem = driver; private_fs_descriptor = 7; private_fs = tt }

abbrev path : List (List ℕ)
path = (b'0' ∷ b':' ∷ []) ∷ (b'f' ∷ []) ∷ []

-- The file 0:/f is mounted, and descriptors below a number are in use.
abbrev state : (ℕ → Option (OpenFile (Unit {0}) (Unit {0}) ℕ)) → Files (Unit {0}) (Unit {0}) ℕ
state descriptors = record {
  filesystems = λ i. none;
  file_descriptors = descriptors;
  mounted = λ i.
      if i == 0
      then some (record { filename = b'0' ∷ b':' ∷ b'/' ∷ b'f' ∷ []; fs = driver; fs_data = tt })
      else none;
  world = tt;
}

abbrev below : ℕ → ℕ → Option (OpenFile (Unit {0}) (Unit {0}) ℕ)
below n i = if ltb i n then some (desc (i + 1)) else none

fclose-fopen_example :
    (0 < 3)
    × (below 2 (3 - 1) ≡ none)
    × ((fclose (state (λ i. if i == 2 then some (desc 3) else below 2 i)) 3).1.file_descriptors 2
        ≡ below 2 2)
unfolding fopen find_prefix prefix_at find_mount same_path reconstruct file_get_mode_by_string
    open_mounted file_new_descriptor free_slot strlen strlen_from strcmp strncmp
fclose-fopen_example =
    fclose-fopen (state (below 2)) (state (λ i. if i == 2 then some (desc 3) else below 2 i))
      (ok path) (b'r' ∷ 0 ∷ []) 3 2 refl (omega arith)

calls-fclose-fopen_example :
    let after = (fclose (state (λ i. if i == 2 then some (desc 3) else below 2 i)) 3).1 in
    (fseek after 3 0 seek_set ≡ (err eio, after))
    × (fstat after 3 ≡ (err eio, after))
    × (fclose after 3 ≡ (err eio, after))
    × (fread after 1 1 3 ≡ none)
    × (fwrite after [] 1 1 3 ≡ none)
unfolding fopen find_prefix prefix_at find_mount same_path reconstruct file_get_mode_by_string
    open_mounted file_new_descriptor free_slot strlen strlen_from strcmp strncmp
calls-fclose-fopen_example =
    calls-fclose-fopen (state (below 2)) (state (λ i. if i == 2 then some (desc 3) else below 2 i))
      (ok path) (b'r' ∷ 0 ∷ []) 3 0 1 1 seek_set [] refl (omega arith) (omega arith) (omega arith)

-- Nothing is mounted, and then 0:/f.
abbrev nothing_mounted : Files (Unit {0}) (Unit {0}) ℕ
nothing_mounted = record (state (below 0)) { mounted = λ i. none }

abbrev f_mounted : Files (Unit {0}) (Unit {0}) ℕ
f_mounted = record nothing_mounted {
  mounted = update (λ i. none) 0 (some (mounted_file (b'0' ∷ b':' ∷ b'/' ∷ b'f' ∷ []) driver tt));
}

nothing-NotMounted :
    (name : List ℕ) (j : ℕ) (m : MountedFile (Unit {0}) (Unit {0}) ℕ)
    → ◌≡◌ {A = Option (MountedFile (Unit {0}) (Unit {0}) ℕ)} none (some m)
    → IsText m.filename × (name ≢ m.filename)
nothing-NotMounted name j m e = cc

fopen-mount_example :
    fopen f_mounted (ok path) (b'r' ∷ 0 ∷ [])
    ≡ open_mounted f_mounted
        (mounted_file (b'0' ∷ b':' ∷ b'/' ∷ b'f' ∷ []) driver tt)
        []
        (file_get_mode_by_string (b'r' ∷ 0 ∷ []))
unfolding mount free_slot reconstruct file_get_mode_by_string strncmp
fopen-mount_example =
    fopen-mount nothing_mounted f_mounted (b'0' ∷ b':' ∷ b'/' ∷ b'f' ∷ []) path (b'r' ∷ 0 ∷ [])
      driver tt refl (nothing-NotMounted (b'0' ∷ b':' ∷ b'/' ∷ b'f' ∷ [])) (omega arith)
      (omega arith) refl (omega arith) refl
