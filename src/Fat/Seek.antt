-- ===== src/Fat/Seek.antt =====
-- Positions in a file, `fat16_seek` of src/kernel/fs/fat16/fat16.c.
use git_os.Base.{
  ℕ, ◌+◌, ◌-◌, ◌≤◌, ◌<◌, ◌^◌, ◌≡◌, refl, arith, Bool, true, false, ◌&&◌, ltb, leb, if◌then◌else◌,
  ok, err, einvarg, Bool-cases, inl, inr, ltb→lt,
}
use git_os.Fat.{
  Cache, FatFile, item_file, FileDescriptor, SeekMode, seek_set, seek_cur, seek_end, seek_other,
  seek_position, seek,
}

-- Where the seek leads.
abbrev pub seek_target : ℕ → ℕ → ℕ → SeekMode → ℕ
seek_target filesize position offset seek_set = offset
seek_target filesize position offset seek_cur = position + offset
seek_target filesize position offset seek_end = filesize - offset
seek_target filesize position offset seek_other = position

seek_position-target :
    (filesize position offset : ℕ) (mode : SeekMode)
    → filesize < 2 ^ 31
    → position ≤ filesize
    → offset < filesize
    → seek_position filesize position offset mode ≡ (
        if leb (seek_target filesize position offset mode) filesize
        then ok (seek_target filesize position offset mode)
        else err einvarg)
unfolding seek_position
seek_position-target filesize position offset seek_set h k l = ground arith
seek_position-target filesize position offset seek_cur h k l = ground arith
seek_position-target filesize position offset seek_end h k l = ground arith
seek_position-target filesize position offset seek_other h k l = ground arith

-- The descriptor of a file at a position.
abbrev pub opened : FatFile → ℕ → Cache → FileDescriptor
opened f position c = record { item = item_file f; offset_pos = position; cache = c }

moved :
    (f : FatFile) (c : Cache) (b : Bool) (position p : ℕ)
    → (elim (if b then ok p else err einvarg) [
      | err e ↦ err e
      | ok q ↦ ok (record (opened f position c) { offset_pos = q })
    ])
      ≡ (if b then ok (opened f p c) else err einvarg)
moved f c true position p = refl
moved f c false position p = refl

-- In a file below 2 GiB, and from a position in it, a seek by less than the file's size leads to the
-- offset, to the position and the offset, to the end less the offset, or for a mode that is none of
-- the three to where it was, where that lies in the file or at its end; every other seek is refused
-- with -EINVARG.
pub seek-target :
    (f : FatFile) (c : Cache) (position offset : ℕ) (mode : SeekMode)
    → f.filesize < 2 ^ 31
    → position ≤ f.filesize
    → seek (opened f position c) offset mode ≡ (
        if ltb offset f.filesize && leb (seek_target f.filesize position offset mode) f.filesize
        then ok (opened f (seek_target f.filesize position offset mode) c)
        else err einvarg)
unfolding seek
seek-target f c position offset mode h k = elim (Bool-cases (ltb offset f.filesize)) [
  | inl e ↦
      let inside : offset < f.filesize = ltb→lt offset f.filesize e in
      let not_behind : leb f.filesize offset ≡ false = ground arith in
      rw (seek, e, not_behind, seek_position-target f.filesize position offset mode h k inside)
        (moved f c (leb (seek_target f.filesize position offset mode) f.filesize) position
          (seek_target f.filesize position offset mode))
  | inr e ↦ let behind : leb f.filesize offset ≡ true = ground arith in rw (seek, e, behind) refl
]
