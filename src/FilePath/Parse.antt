-- ===== src/FilePath/Parse.antt =====
-- What `pathparser_parse` of src/kernel/fs/Path.cpp makes of a path.
use git_os.Base.{
  ℕ, zero, suc, ◌<◌, ◌≡◌, ◌⊎◌, refl, ap, ◌∙◌, arith, true, false, ◌==◌, inl, inr, Option, none,
  some, List, [], ◌∷◌, ◌++◌, map, ok, err, einvarg, length,
}
use git_os.Base.Int.{ℤ, pos, negsuc}
use git_os.File.{terminated, max_path, reconstruct}
use git_os.Str.{strlen, strlen_from, strcmp, strncmp}
use git_os.Str.Begins.{Compared, strncmp-begins}
use git_os.Str.Copy.{IsText, strlen-buffer}
use git_os.FilePath.{root, valid, pathparser_parse, text_of}
use git_os.FilePath.Split.{split, buffer_of, parse_from-split, texts-split, reconstruct-split}

-- The texts that are valid paths.
abbrev pub Begins : List ℕ → Type 0
Begins path = (rest : List ℕ) × (path ≡ root ++ rest)

valid_of_compared :
    (path : List ℕ) (z : Option ℤ)
    → (length path == 0) ≡ false
    → IsText path
    → strncmp (terminated root) (terminated path) 3 ≡ z
    → valid (terminated path) ≡ (elim z [
      | none ↦ none
      | some d ↦ elim d [
        | pos n ↦ elim n [ zero ↦ some true | suc _ ↦ some false ]
        | negsuc n ↦ some false
      ]
    ])
unfolding valid strcmp strlen strlen_from
valid_of_compared path z ne t e = rw (valid, strlen-buffer path [] t, ne, e) refl

valid-Begins :
    (path : List ℕ)
    → IsText path
    → (Begins path × (valid (terminated path) ≡ some true))
      ⊎ ((¬ Begins path) × (valid (terminated path) ≡ some false))
unfolding valid strlen strlen_from
valid-Begins [] t = inr ((λ b. cc b.1), refl)
valid-Begins (c ∷ path) t = from_compared (strncmp-begins root (c ∷ path) (0 ∷ []) (omega arith) t)
  where
    from_compared :
        Compared root (c ∷ path) (strncmp (terminated root) (terminated (c ∷ path)) 3)
        → (Begins (c ∷ path) × (valid (terminated (c ∷ path)) ≡ some true))
          ⊎ ((¬ Begins (c ∷ path)) × (valid (terminated (c ∷ path)) ≡ some false))
    from_compared (inl (b, e)) =
        inl (b, valid_of_compared (c ∷ path) (some (pos 0)) (ground arith) t e)
    from_compared (inr (n, (pos zero, e, z))) = absurd (z refl)
    from_compared (inr (n, (pos (suc m), e, z))) =
        inr ((λ b. n b.0 b.1), valid_of_compared (c ∷ path) (some (pos (suc m))) (ground arith) t e)
    from_compared (inr (n, (negsuc m, e, z))) =
        inr ((λ b. n b.0 b.1), valid_of_compared (c ∷ path) (some (negsuc m)) (ground arith) t e)

-- What a path is taken apart into, or that it is refused.
abbrev pub Parsed : List ℕ → Type 0
Parsed path =
    (Begins path
      × ((buffers : List (List ℕ)) × (pathparser_parse path ≡ some (ok buffers))
          × (map text_of buffers ≡ split [] path)
          × (reconstruct (map text_of buffers) ≡ path)))
    ⊎ ((¬ Begins path) × (pathparser_parse path ≡ some (err einvarg)))

-- What `pathparser_parse` returns for a text of fewer than `MAX_PATH` bytes: -EINVARG exactly if it does
-- not begin with "0:/". Otherwise the buffers of its parts, the texts of which are those between the
-- slashes, in order; and `fopen` puts the path together from them again.
pub pathparser_parse-split : (path : List ℕ) → IsText path → length path < max_path → Parsed path
unfolding pathparser_parse
pathparser_parse-split path t h = from_valid (valid-Begins path t)
  where
    from_valid :
        (Begins path × (valid (terminated path) ≡ some true))
          ⊎ ((¬ Begins path) × (valid (terminated path) ≡ some false))
        → Parsed path
    from_valid (inl (b, e)) =
        let texts = texts-split [] path tt t in
        let buffers = map buffer_of (split [] path) in
        let parsed : pathparser_parse path ≡ some (ok buffers) =
          rw (pathparser_parse, e, parse_from-split path [] (omega arith)) refl in
        inl (b, (buffers, parsed, texts, ap reconstruct texts ∙ reconstruct-split [] path))
    from_valid (inr (n, e)) = inr (n, rw (pathparser_parse, e) refl)
