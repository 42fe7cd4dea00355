-- ===== src/Base/Block.antt =====
-- Blocks of memory as lists: what lies at an offset of a memory, and a list that is written there.
use git_os.Base.Tests.{ltb, leb, if◌then◌else◌}
use git_os.Base.Lists.{length, get_or, take, drop, length-append}
use git_os.Base.Index.{get_or_ext, get_or-append}
use Prim.Native.Nat.{ℕ, zero, suc, ◌+◌, ◌-◌, ◌≤◌, ◌<◌}
use mathlib.Core.Path.{◌≡◌, refl, ap, ap₂, sym, ◌∙◌}
use mathlib.Core.Bool.{◌&&◌}
use mathlib.Core.List.{List, [], ◌∷◌, ◌++◌}
use native.Mathlib.Omega.{arith}

-- `memcpy` of the bytes `xs` to the offset `at` of a memory.
abbrev pub write_at : (ℕ → ℕ) → ℕ → List ℕ → ℕ → ℕ
write_at mem at xs j = if leb at j && ltb j (at + length xs) then get_or xs (j - at) 0 else mem j

module _ {ℓ} {A : Type ℓ} where
  -- The values of a function from 0 on.
  abbrev pub tabulate : ℕ → (ℕ → A) → List A
  tabulate zero f = []
  tabulate (suc n) f = f 0 ∷ tabulate n (λ i. f (suc i))

-- `memcpy` of `n` bytes from the offset `at` of a memory.
abbrev pub read_at : (ℕ → ℕ) → ℕ → ℕ → List ℕ
read_at mem at n = tabulate n (λ i. mem (at + i))

module _ {ℓ} {A : Type ℓ} where
  pub length-tabulate : (n : ℕ) (f : ℕ → A) → length (tabulate n f) ≡ n
  length-tabulate zero f = refl
  length-tabulate (suc n) f = ap suc (length-tabulate n (λ i. f (suc i)))

  pub get_or-tabulate :
      (n : ℕ) (f : ℕ → A) (i : ℕ) (d : A) → i < n → get_or (tabulate n f) i d ≡ f i
  get_or-tabulate zero f i d h = absurd (omega arith)
  get_or-tabulate (suc n) f zero d h = refl
  get_or-tabulate (suc n) f (suc i) d h = get_or-tabulate n (λ j. f (suc j)) i d (omega arith)

  pub tabulate_ext :
      (n : ℕ) (f g : ℕ → A) → ((i : ℕ) → i < n → f i ≡ g i) → tabulate n f ≡ tabulate n g
  tabulate_ext zero f g h = refl
  tabulate_ext (suc n) f g h =
      ap₂ ◌∷◌ (h 0 (omega arith))
        (tabulate_ext n (λ i. f (suc i)) (λ i. g (suc i)) (λ i p. h (suc i) (omega arith)))

  pub take-tabulate : (m n : ℕ) (f : ℕ → A) → m ≤ n → take m (tabulate n f) ≡ tabulate m f
  take-tabulate zero n f h = refl
  take-tabulate (suc m) zero f h = absurd (omega arith)
  take-tabulate (suc m) (suc n) f h =
      ap (◌∷◌ (f 0)) (take-tabulate m n (λ i. f (suc i)) (omega arith))

  pub drop-tabulate :
      (d n : ℕ) (f : ℕ → A) → drop d (tabulate n f) ≡ tabulate (n - d) (λ i. f (d + i))
  drop-tabulate zero n f =
      let same : n ≡ n - 0 = omega arith in
      tabulate_ext n f (λ i. f (0 + i)) (λ i p. let e : i ≡ 0 + i = omega arith in ap f e)
      ∙ ap (λ k. tabulate k (λ i. f (0 + i))) same
  drop-tabulate (suc d) zero f =
      let none_left : 0 ≡ 0 - suc d = omega arith in
      ap (λ k. tabulate k (λ i. f (suc d + i))) none_left
  drop-tabulate (suc d) (suc n) f =
      let same : n - d ≡ suc n - suc d = omega arith in
      drop-tabulate d n (λ i. f (suc i))
      ∙ tabulate_ext (n - d) (λ i. f (suc (d + i))) (λ i. f (suc d + i))
          (λ i p. let e : suc (d + i) ≡ suc d + i = omega arith in ap f e)
      ∙ ap (λ k. tabulate k (λ i. f (suc d + i))) same

  pub tabulate-get_or : (xs : List A) (d : A) → tabulate (length xs) (λ i. get_or xs i d) ≡ xs
  tabulate-get_or [] d = refl
  tabulate-get_or (x ∷ xs) d = ap (◌∷◌ x) (tabulate-get_or xs d)

  -- A table that goes on with the elements of a list.
  pub tabulate-append :
      (n : ℕ) (f : ℕ → A) (xs : List A) (d : A)
      → tabulate n f ++ xs
        ≡ tabulate (n + length xs) (λ i. if ltb i n then f i else get_or xs (i - n) d)
  tabulate-append n f xs d =
      get_or_ext d (tabulate n f ++ xs) (tabulate (n + length xs) both)
        (omega (
          arith,
          length-append (tabulate n f) xs,
          length-tabulate n f,
          length-tabulate (n + length xs) both,
        ))
        (λ i p.
          get_or-append (tabulate n f) xs i d
          ∙ here i
          ∙ sym (
              get_or-tabulate (n + length xs) both i d
                (omega (arith, length-append (tabulate n f) xs, length-tabulate n f))))
    where
      both : ℕ → A
      both i = if ltb i n then f i else get_or xs (i - n) d

      here :
          (i : ℕ)
          → (if ltb i (length (tabulate n f))
              then get_or (tabulate n f) i d
              else get_or xs (i - length (tabulate n f)) d)
            ≡ (if ltb i n then f i else get_or xs (i - n) d)
      here i = ground (arith, length-tabulate n f, get_or-tabulate n f i d)

  pub get_or-take :
      (n : ℕ) (xs : List A) (i : ℕ) (d : A) → i < n → get_or (take n xs) i d ≡ get_or xs i d
  get_or-take zero xs i d h = absurd (omega arith)
  get_or-take (suc n) [] i d h = refl
  get_or-take (suc n) (x ∷ xs) zero d h = refl
  get_or-take (suc n) (x ∷ xs) (suc i) d h = get_or-take n xs i d (omega arith)

  pub get_or-drop :
      (n : ℕ) (xs : List A) (i : ℕ) (d : A) → get_or (drop n xs) i d ≡ get_or xs (n + i) d
  get_or-drop zero xs i d = let e : i ≡ 0 + i = omega arith in ap (λ (k : ℕ). get_or xs k d) e
  get_or-drop (suc n) [] i d = refl
  get_or-drop (suc n) (x ∷ xs) i d =
      let e : suc (n + i) ≡ suc n + i = omega arith in
      get_or-drop n xs i d ∙ ap (λ (k : ℕ). get_or (x ∷ xs) k d) e

pub drop-drop {ℓ} : {A : Type ℓ} (n m : ℕ) (xs : List A) → drop m (drop n xs) ≡ drop (n + m) xs
drop-drop {A} zero m xs = let e : m ≡ 0 + m = omega arith in ap (λ (k : ℕ). drop k xs) e
drop-drop {A} (suc n) zero [] =
    let e : suc n + 0 ≡ suc n = omega arith in ap (λ (k : ℕ). drop {A = A} k []) (sym e)
drop-drop {A} (suc n) (suc m) [] =
    let e : suc n + suc m ≡ suc (n + suc m) = omega arith in
    ap (λ (k : ℕ). drop {A = A} k []) (sym e)
drop-drop {A} (suc n) m (x ∷ xs) =
    let e : suc (n + m) ≡ suc n + m = omega arith in
    drop-drop n m xs ∙ ap (λ (k : ℕ). drop k (x ∷ xs)) e

pub take_more {ℓ} :
    {A : Type ℓ} (n m : ℕ) (xs : List A) → take n xs ++ take m (drop n xs) ≡ take (n + m) xs
take_more {A} zero m xs = let e : m ≡ 0 + m = omega arith in ap (λ (k : ℕ). take k xs) e
take_more {A} (suc n) zero [] =
    let e : suc n + 0 ≡ suc n = omega arith in ap (λ (k : ℕ). take {A = A} k []) (sym e)
take_more {A} (suc n) (suc m) [] =
    let e : suc n + suc m ≡ suc (n + suc m) = omega arith in
    ap (λ (k : ℕ). take {A = A} k []) (sym e)
take_more {A} (suc n) m (x ∷ xs) =
    let e : suc (n + m) ≡ suc n + m = omega arith in
    ap (◌∷◌ x) (take_more n m xs) ∙ ap (λ (k : ℕ). take k (x ∷ xs)) e

pub drop_all {ℓ} : {A : Type ℓ} (n : ℕ) (xs : List A) → length xs ≤ n → drop n xs ≡ []
drop_all zero [] h = refl
drop_all zero (x ∷ xs) h = absurd (omega arith)
drop_all (suc n) [] h = refl
drop_all (suc n) (x ∷ xs) h = drop_all n xs (omega arith)

pub take_all {ℓ} : {A : Type ℓ} (xs : List A) → take (length xs) xs ≡ xs
take_all [] = refl
take_all (x ∷ xs) = ap (◌∷◌ x) (take_all xs)
