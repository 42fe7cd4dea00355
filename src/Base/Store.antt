-- ===== src/Base/Store.antt =====
-- Memory as a function from indices to bytes or words: a write of C beside an array stays visible.
use Prim.Native.Nat.{ℕ}
use mathlib.Core.Path.{◌≡◌}
use mathlib.Core.Logic.{◌≢◌}
use native.Mathlib.Omega.{arith}
use git_os.Base.Tests.{◌==◌, if◌then◌else◌}

abbrev pub update {ℓ} : {A : Type ℓ} → (ℕ → A) → ℕ → A → ℕ → A
update f i v j = if j == i then v else f j

module _ {ℓ} {A : Type ℓ} (f : ℕ → A) where
  pub update_self : (i : ℕ) (v : A) → update f i v i ≡ v
  update_self i v = ground arith

  pub update_ne : (i j : ℕ) (v : A) → j ≢ i → update f i v j ≡ f j
  update_ne i j v ne = ground arith
