-- ===== src/Str/Begins.antt =====
-- Comparing the first bytes of a text, with `strncmp` of src/kernel/common/string.c.
use git_os.Base.{
  ℕ, ◌≡◌, ◌≢◌, ◌⊎◌, refl, sym, arith, false, ◌==◌, Bool-cases, inl, inr, Option, some, List, [],
  ◌∷◌, ◌++◌, length,
}
use git_os.Base.Int.{ℤ, pos, sub_ℕ}
use mathlib.Core.Path.{ap₂}
use git_os.Str.{strncmp}
use git_os.Str.Copy.{IsText, ne_zero}

-- A text begins with another one, or their bytes compare unequal.
abbrev pub Compared : List ℕ → List ℕ → Option ℤ → Type 0
Compared first s res =
    (((more : List ℕ) × (s ≡ first ++ more)) × (res ≡ some (pos 0)))
    ⊎ (((more : List ℕ) → s ≢ first ++ more) × ((z : ℤ) × (res ≡ some z) × (z ≢ pos 0)))

unequal : (a b : ℕ) → (a == b) ≡ false → sub_ℕ a b ≢ pos 0
unequal a b e h = ground arith

Compared-cons :
    (a b : ℕ) (first s : List ℕ) (res : Option ℤ)
    → a ≡ b
    → Compared first s res
    → Compared (a ∷ first) (b ∷ s) res
Compared-cons a b first s res e (inl ((more, q), r)) = inl ((more, ap₂ ◌∷◌ (sym e) q), r)
Compared-cons a b first s res e (inr (other, r)) = inr ((λ more q. other more (cc)), r)

pub strncmp-begins :
    (first s rest : List ℕ)
    → IsText first
    → IsText s
    → Compared first s (strncmp (first ++ rest) (s ++ (0 ∷ [])) (length first))
unfolding strncmp
strncmp-begins [] s rest f t = inl ((s, refl), refl)
strncmp-begins (a ∷ first) [] rest f t =
    rw (ne_zero a f.0) (inr ((λ more e. cc), (sub_ℕ a 0, refl, unequal a 0 (ne_zero a f.0))))
strncmp-begins (a ∷ first) (b ∷ s) rest f t = elim (Bool-cases (a == b)) [
  | inl e ↦
      rw (e, ne_zero a f.0)
        (Compared-cons a b first s _ (ground arith) (strncmp-begins first s rest f.1 t.1))
  | inr e ↦
      let differ : a ≢ b = ground arith in
      rw e (inr ((λ more q. differ (cc)), (sub_ℕ a b, refl, unequal a b e)))
]
