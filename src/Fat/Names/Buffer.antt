-- ===== src/Fat/Names/Buffer.antt =====
-- Which names of src/kernel/fs/fat16/fat16.c fit into the buffer of 11 bytes.
use git_os.Base.{
  ℕ, zero, suc, ◌+◌, ◌-◌, ◌≤◌, ◌<◌, ◌≡◌, refl, ap, arith, true, false, ◌&&◌, not, Option, none,
  some, List, [], ◌∷◌, ◌++◌, ◌==◌, ltb, leb, if◌then◌else◌, get_or, replicate, length, Bool-cases,
  inl, inr, length-append, leb→le,
}
use mathlib.Core.Option
use git_os.Fat.{FatFile}
use git_os.Fat.Names.{is_blank, to_proper_string, with_extension, get_full_relative_filename}

-- The bytes of a padded field before its padding.
pub text_of : List ℕ → List ℕ
text_of [] = []
text_of (c ∷ field) = if is_blank c then [] else c ∷ text_of field

-- The bytes that such a field takes in the buffer: a short one also a terminator.
abbrev pub room : List ℕ → ℕ
room field =
    if ltb (length (text_of field)) (length field)
    then length (text_of field) + 1
    else length (text_of field)

text_of_blank : (c : ℕ) (field : List ℕ) → is_blank c ≡ true → text_of (c ∷ field) ≡ []
unfolding text_of
text_of_blank c field e = rw e refl

text_of_cons :
    (c : ℕ) (field : List ℕ) → is_blank c ≡ false → text_of (c ∷ field) ≡ c ∷ text_of field
unfolding text_of
text_of_cons c field e = rw e refl

room_blank : (c : ℕ) (field : List ℕ) → is_blank c ≡ true → room (c ∷ field) ≡ 1
room_blank c field e = ground (arith, text_of_blank c field e)

room_cons : (c : ℕ) (field : List ℕ) → is_blank c ≡ false → room (c ∷ field) ≡ suc (room field)
room_cons c field e = ground (arith, text_of_cons c field e)

text_fits : (field : List ℕ) → length (text_of field) ≤ room field
text_fits field = ground arith

string_fits :
    (m : ℕ) (field : List ℕ) (n : ℕ)
    → length field ≡ n
    → room field ≤ m
    → ◌≡◌ {A = Option (List ℕ × List ℕ)}
        (to_proper_string (replicate m 0) field n)
        (some (text_of field, replicate (m - length (text_of field)) 0))
unfolding to_proper_string text_of
string_fits m [] zero h r = ap (λ k. some ([], replicate k 0)) (omega arith)
string_fits m [] (suc n) h r = absurd (omega arith)
string_fits m (c ∷ field) zero h r = absurd (omega arith)
string_fits zero (c ∷ field) (suc n) h r = elim (Bool-cases (is_blank c)) [
  | inl e ↦ absurd (omega (arith, room_blank c field e))
  | inr e ↦ absurd (omega (arith, room_cons c field e))
]
string_fits (suc m) (c ∷ field) (suc n) h r = elim (Bool-cases (is_blank c)) [
  | inl e ↦ rw e (ap (λ k. some ([], replicate k 0)) {x = suc m} (omega arith))
  | inr e ↦
      let len : room field ≤ m = omega (arith, room_cons c field e) in
      rw (e, string_fits m field n (omega arith) len)
        (ap (λ k. some (c ∷ text_of field, replicate k 0)) (omega arith))
]

room_none : room [] ≡ 0
unfolding text_of
room_none = refl

string_overruns :
    (m : ℕ) (field : List ℕ) (n : ℕ)
    → length field ≡ n
    → m < room field
    → ◌≡◌ {A = Option (List ℕ × List ℕ)} (to_proper_string (replicate m 0) field n) none
unfolding to_proper_string
string_overruns m [] zero h r = absurd (omega (arith, room_none))
string_overruns m [] (suc n) h r = absurd (omega arith)
string_overruns m (c ∷ field) zero h r = absurd (omega arith)
string_overruns zero (c ∷ field) (suc n) h r = refl
string_overruns (suc m) (c ∷ field) (suc n) h r = elim (Bool-cases (is_blank c)) [
  | inl e ↦ absurd (omega (arith, room_blank c field e))
  | inr e ↦
      let len : m < room field = omega (arith, room_cons c field e) in
      rw (e, string_overruns m field n (omega arith) len) refl
]

-- The name as it is written: what stands before the padding, and behind a `.` the extension, if it
-- is not blank.
abbrev pub dotted : FatFile → List ℕ
dotted f =
    if is_blank (get_or f.ext 0 0)
    then text_of f.filename
    else text_of f.filename ++ (b'.' ∷ text_of f.ext)

-- The length that it needs in the buffer.
abbrev pub dotted_room : FatFile → ℕ
dotted_room f =
    if is_blank (get_or f.ext 0 0)
    then length (text_of f.filename)
    else length (text_of f.filename) + 1 + room f.ext

text_short : (field : List ℕ) → length (text_of field) ≤ length field
unfolding text_of
text_short [] = omega arith
text_short (c ∷ field) = elim (Bool-cases (is_blank c)) [
  | inl e ↦ rw e (omega arith)
  | inr e ↦ rw e (omega (arith, text_short field))
]

room_short : (field : List ℕ) → room field ≤ length field
room_short field = ground (arith, text_short field)

name_short : (f : FatFile) → length f.filename ≡ 8 → leb (length (text_of f.filename)) 11 ≡ true
name_short f h = ground (arith, text_short f.filename)

blank_test : (c : ℕ) → (not (c == 0x00) && not (c == 0x20)) ≡ not (is_blank c)
blank_test c = ground arith

-- The extension behind a name.
extension_part :
    (ext name : List ℕ)
    → length ext ≡ 3
    → length name ≤ 8
    → Option.map
        (λ (r : List ℕ × List ℕ). name ++ r.0 ++ r.1)
        (with_extension (replicate (11 - length name) 0) ext)
      ≡ (if leb (length name + 1 + room ext) 11
          then some (
              (name ++ (b'.' ∷ text_of ext))
              ++ replicate (11 - length (name ++ (b'.' ∷ text_of ext))) 0)
          else none)
unfolding with_extension
extension_part ext name k h =
    let out : 11 - length name ≡ suc (10 - length name) = omega arith in
    elim (Bool-cases (leb (length name + 1 + room ext) 11)) [
      | inl e ↦
          let fits : room ext ≤ 10 - length name =
            omega (arith, leb→le (length name + 1 + room ext) 11 e) in
          rw (e, out, string_fits (10 - length name) ext 3 k fits)
            (ap (λ n. some ((name ++ (b'.' ∷ text_of ext)) ++ replicate n 0))
              (omega (arith, length-append name (b'.' ∷ text_of ext))))
      | inr e ↦
          let over : 10 - length name < room ext = ground arith in
          rw (e, out, string_overruns (10 - length name) ext 3 k over) refl
    ]

-- The name in a directory record, whose fields have 8 and 3 bytes, is written to the buffer with its padding cut off and a `.` before
-- the extension, if that is not blank, and zeros behind it; but a name that takes more than the 11
-- bytes of the buffer, such as one of 8 letters and an extension of 3, is written past its end.
pub get_full_relative_filename-dotted :
    (f : FatFile)
    → length f.filename ≡ 8
    → length f.ext ≡ 3
    → get_full_relative_filename f ≡ (
        if leb (dotted_room f) 11
        then some (dotted f ++ replicate (11 - length (dotted f)) 0)
        else none)
unfolding get_full_relative_filename with_extension
get_full_relative_filename-dotted f h k =
    let whole = string_fits 11 f.filename 8 h (omega (arith, room_short f.filename)) in
    elim (Bool-cases (is_blank (get_or f.ext 0 0))) [
      | inl e ↦
          let short : leb (length (text_of f.filename)) 11 ≡ true = name_short f h in
          rw (get_full_relative_filename, whole, blank_test (get_or f.ext 0 0), e, short) refl
      | inr e ↦
          rw (get_full_relative_filename, whole, blank_test (get_or f.ext 0 0), e)
            (extension_part f.ext (text_of f.filename) k (omega (arith, text_short f.filename)))
    ]
