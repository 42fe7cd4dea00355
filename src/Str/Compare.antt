-- ===== src/Str/Compare.antt =====
-- `strncmp` and `strcmp` on strings that end in the byte 0.
use git_os.Base.{
  ℕ, suc, ◌+◌, ◌-◌, ◌<◌, ◌≡◌, ◌≢◌, refl, ap, ◌∙◌, sym, arith, some, List, [], ◌∷◌, ◌++◌, length,
  ◌↔◌, eq_of_some,
}
use git_os.Base.Int.{pos, sub_ℕ}
use native.Mathlib.Decide.{ℕ_discrete}
use git_os.Str.{strncmp, strcmp}
use git_os.Str.Copy.{IsText, buffer, strlen-buffer}

-- `s` is the beginning of `t`.
abbrev pub IsPrefixOf : List ℕ → List ℕ → Type 0
IsPrefixOf s t = (u : List ℕ) × (t ≡ s ++ u)

sub_ℕ-eq-zero : (x y : ℕ) → sub_ℕ x y ≡ pos 0 → x ≡ y
sub_ℕ-eq-zero x y e = ground arith

strncmp-same : (x n : ℕ) (s t : List ℕ) → x ≢ 0 → strncmp (x ∷ s) (x ∷ t) (suc n) ≡ strncmp s t n
unfolding strncmp
strncmp-same x n s t h = ground arith

strncmp-differ :
    (x y n : ℕ) (s t : List ℕ) → x ≢ y → strncmp (x ∷ s) (y ∷ t) (suc n) ≡ some (sub_ℕ x y)
unfolding strncmp
strncmp-differ x y n s t h = ground arith

differ-ne_zero : (x y n : ℕ) (s t : List ℕ) → x ≢ y → strncmp (x ∷ s) (y ∷ t) (suc n) ≢ some (pos 0)
differ-ne_zero x y n s t h e =
    h (sub_ℕ-eq-zero x y (eq_of_some (sym (strncmp-differ x y n s t h) ∙ e)))

strncmp-prefix :
    (s t r r' : List ℕ)
    → IsText s
    → IsText t
    → (strncmp (buffer s r) (buffer t r') (length s) ≡ some (pos 0)) ↔ IsPrefixOf s t
strncmp-prefix [] t r r' p q = (λ e. (t, refl), λ u. unfold strncmp in refl)
strncmp-prefix (x ∷ s) [] r r' p q =
    (λ e. absurd (differ-ne_zero x 0 (length s) (buffer s r) r' p.0 e), λ u. cc u.1)
strncmp-prefix (x ∷ s) (y ∷ t) r r' p q =
    let rest = strncmp-prefix s t r r' p.1 q.1 in
    elim (ℕ_discrete x y) [
      | no differ ↦ (
        λ e. absurd (differ-ne_zero x y (length s) (buffer s r) (buffer t r') differ e),
        λ u. absurd (differ (cc u.1)),
      )
      | yes same ↦
          rw (← same, strncmp-same x (length s) (buffer s r) (buffer t r') p.0)
            (λ e. let (u, tail) = rest.0 e in (u, ap (◌∷◌ x) tail), λ u. rest.1 (u.0, cc u.1))
    ]

-- `strcmp` of two strings is 0 exactly when the first is the beginning of the second.
pub strcmp-prefix :
    (s t r r' : List ℕ)
    → IsText s
    → IsText t
    → (strcmp (buffer s r) (buffer t r') ≡ some (pos 0)) ↔ IsPrefixOf s t
unfolding strcmp
strcmp-prefix s t r r' p q = rw (strlen-buffer s r p, strcmp) (strncmp-prefix s t r r' p q)

strncmp-append :
    (p s t : List ℕ) (x y n : ℕ)
    → IsText p
    → x ≢ y
    → strncmp (p ++ (x ∷ s)) (p ++ (y ∷ t)) (length p + suc n) ≡ some (sub_ℕ x y)
strncmp-append [] s t x y n h ne =
    let count : 0 + suc n ≡ suc n = omega arith in rw count (strncmp-differ x y n s t ne)
strncmp-append (c ∷ p) s t x y n h ne =
    let count : suc (length p) + suc n ≡ suc (length p + suc n) = omega arith in
    rw (count, strncmp-same c (length p + suc n) (p ++ (x ∷ s)) (p ++ (y ∷ t)) h.0)
      (strncmp-append p s t x y n h.1 ne)

-- Where two buffers agree on bytes that are not 0 and differ in the next, and the count reaches
-- past them, `strncmp` returns the difference of the two bytes.
pub strncmp_first_difference :
    (p s t : List ℕ) (x y n : ℕ)
    → IsText p
    → x ≢ y
    → length p < n
    → strncmp (p ++ (x ∷ s)) (p ++ (y ∷ t)) n ≡ some (sub_ℕ x y)
strncmp_first_difference p s t x y n h ne reach =
    let count : n ≡ length p + suc (n - length p - 1) = omega arith in
    rw count (strncmp-append p s t x y (n - length p - 1) h ne)
