-- ===== src/Fat/Chain.antt =====
-- The cluster chain of a file and the cache of the place in it, src/kernel/fs/fat16/fat16.c.
use git_os.Base.{
  leb, ◌||◌, ◌^◌, ◌<◌, ℕ, zero, suc, ◌+◌, ◌-◌, ◌*◌, ◌/◌, ◌≤◌, ◌≡◌, ◌≢◌, refl, ap, ◌∙◌, sym, arith,
  false, Option, none, some, ◌==◌, inl, inr, Result, ok, err, ◌⊎◌,
}
use mathlib.Core.Option
use native.Mathlib.Nat.{mul-div_cancel}
use mathlib.Core.Path.{subst}
use git_os.Disk.{Drive}
use git_os.Fat.{
  FatPrivate, Cache, cluster_bytes, walk_from, cached_start, get_nth_cluster, update_cache,
  get_next_fat_entry, is_refused,
}

-- The cache holds nothing, or the cluster of the file in which its offset lies.
abbrev pub IsCached : Drive → FatPrivate → ℕ → Option Cache → Type 0
IsCached drive fs start none = Unit {0}
IsCached drive fs start (some c) =
    (c.cached_cluster ≡ 0)
    ⊎ (walk_from drive fs (c.cached_offset_bytes / cluster_bytes fs) start
        ≡ some (ok c.cached_cluster))

-- One step of a walk that gets to its end.
walk_from-entry :
    (drive : Drive) (fs : FatPrivate) (n c c' : ℕ)
    → walk_from drive fs (suc n) c ≡ some (ok c')
    → (entry : ℕ) × (get_next_fat_entry drive fs c ≡ some entry)
      × (is_refused entry ≡ false)
      × (walk_from drive fs n entry ≡ some (ok c'))
unfolding walk_from
walk_from-entry drive fs n c c' e = ground arith

walk_from-suc :
    (drive : Drive) (fs : FatPrivate) (n c entry : ℕ)
    → get_next_fat_entry drive fs c ≡ some entry
    → is_refused entry ≡ false
    → walk_from drive fs (suc n) c ≡ walk_from drive fs n entry
unfolding walk_from
walk_from-suc drive fs n c entry e r = ground arith

walk_from_self : (drive : Drive) (fs : FatPrivate) (c : ℕ) → walk_from drive fs 0 c ≡ some (ok c)
unfolding walk_from
walk_from_self drive fs c = refl

walk_from_zero :
    (drive : Drive) (fs : FatPrivate) (c c' : ℕ) → walk_from drive fs 0 c ≡ some (ok c') → c ≡ c'
unfolding walk_from
walk_from_zero drive fs c c' e = cc

-- A walk in two parts.
walk_from-+ :
    (drive : Drive) (fs : FatPrivate) (n m c c' k : ℕ)
    → n + m ≡ k
    → walk_from drive fs n c ≡ some (ok c')
    → walk_from drive fs k c ≡ walk_from drive fs m c'
walk_from-+ drive fs zero m c c' k h e =
    let same : c ≡ c' = walk_from_zero drive fs c c' e in
    ap (walk_from drive fs k) same ∙ ap (λ n. walk_from drive fs n c') (omega arith)
walk_from-+ drive fs (suc n) m c c' zero h e = absurd (omega arith)
walk_from-+ drive fs (suc n) m c c' (suc k) h e =
    let s = walk_from-entry drive fs n c c' e in
    walk_from-suc drive fs k c s.0 s.1 s.2 ∙ walk_from-+ drive fs n m s.0 c' k (omega arith) s.3

abbrev pub LeavesCache : Drive → FatPrivate → ℕ → Option (Result ℕ × Option Cache) → Type 0
LeavesCache drive fs start none = Unit {0}
LeavesCache drive fs start (some (c, desc)) = IsCached drive fs start desc

-- What a lookup owes: the result of the walk from the first cluster, and a cache that holds again.
abbrev pub Looks : Drive → FatPrivate → ℕ → ℕ → Option (Result ℕ × Option Cache) → Type 0
Looks drive fs start target result =
    (Option.map (λ r. r.0) result ≡ walk_from drive fs target start)
    × LeavesCache drive fs start result

ne-zero-lt : (n : ℕ) → n ≢ 0 → 0 < n
ne-zero-lt n h = omega arith

eq_false : (n : ℕ) → n ≢ 0 → (n == 0) ≡ false
eq_false n h = ground arith

dec_zero : (n : ℕ) → (n ≡ 0) ⊎ (n ≢ 0)
dec_zero zero = inl refl
dec_zero (suc n) = inr (λ e. omega arith)

cached_walk :
    (drive : Drive) (fs : FatPrivate) (desc : Option Cache) (start target c : ℕ)
    → cluster_bytes fs ≢ 0
    → walk_from drive fs target start ≡ some (ok c)
    → IsCached drive fs start (update_cache desc c (target * cluster_bytes fs))
cached_walk drive fs none start target c nz e = tt
cached_walk drive fs (some _) start target c nz e = inr (
    ap (λ n. walk_from drive fs n start) (mul-div_cancel target (ne-zero-lt (cluster_bytes fs) nz))
    ∙ e)

walk_end :
    (drive : Drive) (fs : FatPrivate) (desc : Option Cache) (start target : ℕ)
    (w : Option (Result ℕ))
    → cluster_bytes fs ≢ 0
    → IsCached drive fs start desc
    → w ≡ walk_from drive fs target start
    → Looks drive fs start target (elim w [
      | none ↦ none
      | some (err e) ↦ some (err e, desc)
      | some (ok c) ↦ some (ok c, update_cache desc c (target * cluster_bytes fs))
    ])
walk_end drive fs desc start target none nz h e = (e, tt)
walk_end drive fs desc start target (some (err x)) nz h e = (e, h)
walk_end drive fs desc start target (some (ok x)) nz h e =
    (e, cached_walk drive fs desc start target x nz (sym e))

-- The walk on from a cluster at a known place of the file.
walk_on :
    (drive : Drive) (fs : FatPrivate) (start target c place : ℕ)
    → place ≤ target
    → walk_from drive fs place start ≡ some (ok c)
    → walk_from drive fs (target - place) c ≡ walk_from drive fs target start
walk_on drive fs start target c place le e =
    sym (walk_from-+ drive fs place (target - place) start c target (omega arith) e)

-- What `cached_start` finds is on the chain.
cached_end :
    (drive : Drive) (fs : FatPrivate) (desc : Option Cache) (start target c : ℕ)
    → IsCached drive fs start desc
    → cached_start (cluster_bytes fs) desc start target ≡ inr c
    → walk_from drive fs target start ≡ some (ok c)
unfolding cached_start
cached_end drive fs none start target c h e = ground arith
cached_end drive fs (some cache) start target c h e = ground (arith, walk_from_self drive fs start)

cached_begin :
    (drive : Drive) (fs : FatPrivate) (desc : Option Cache) (start target c place : ℕ)
    → IsCached drive fs start desc
    → cached_start (cluster_bytes fs) desc start target ≡ inl (c, place)
    → (place ≤ target) × (walk_from drive fs place start ≡ some (ok c))
unfolding cached_start walk_from
cached_begin drive fs none start target c place h e = ground (arith, walk_from_self drive fs start)
cached_begin drive fs (some cache) start target c place h e =
    ground (arith, walk_from_self drive fs start)

-- The start that the cache gives.
start_Looks :
    (drive : Drive) (fs : FatPrivate) (desc : Option Cache) (start target : ℕ) (s : (ℕ × ℕ) ⊎ ℕ)
    → cluster_bytes fs ≢ 0
    → IsCached drive fs start desc
    → cached_start (cluster_bytes fs) desc start target ≡ s
    → Looks drive fs start target (elim s [
      | inr cluster ↦ some (ok cluster, desc)
      | inl (cluster, current_pos) ↦ elim (walk_from drive fs (target - current_pos) cluster) [
        | none ↦ none
        | some (err e) ↦ some (err e, desc)
        | some (ok c) ↦ some (ok c, update_cache desc c (target * cluster_bytes fs))
      ]
    ])
start_Looks drive fs desc start target (inr c) nz h e =
    (sym (cached_end drive fs desc start target c h e), h)
start_Looks drive fs desc start target (inl (c, place)) nz h e =
    let f = cached_begin drive fs desc start target c place h e in
    walk_end drive fs desc start target (walk_from drive fs (target - place) c) nz h
      (walk_on drive fs start target c place f.0 f.1)

-- The start of a lookup that is not of the first cluster.
usable : (size offset : ℕ) → size ≢ 0 → offset < 2 ^ 31 → (size == 0 || leb (2 ^ 31) offset) ≡ false
usable size offset nz lt = ground arith

get_nth_cluster_far :
    (drive : Drive) (fs : FatPrivate) (desc : Option Cache) (start offset : ℕ)
    → cluster_bytes fs ≢ 0
    → offset < 2 ^ 31
    → offset / cluster_bytes fs ≢ 0
    → IsCached drive fs start desc
    → Looks drive fs start (offset / cluster_bytes fs) (get_nth_cluster drive fs desc start offset)
unfolding get_nth_cluster
get_nth_cluster_far drive fs desc start offset nz lt far h =
    rw (usable (cluster_bytes fs) offset nz lt, eq_false (offset / cluster_bytes fs) far)
      (start_Looks drive fs desc start (offset / cluster_bytes fs)
        (cached_start (cluster_bytes fs) desc start (offset / cluster_bytes fs)) nz h refl)

get_nth_cluster_first :
    (drive : Drive) (fs : FatPrivate) (desc : Option Cache) (start offset : ℕ)
    → cluster_bytes fs ≢ 0
    → offset < 2 ^ 31
    → offset / cluster_bytes fs ≡ 0
    → get_nth_cluster drive fs desc start offset ≡ some (ok start, desc)
unfolding get_nth_cluster
get_nth_cluster_first drive fs desc start offset nz lt first =
    rw (usable (cluster_bytes fs) offset nz lt, first) refl

-- With a cache that holds, the cluster of an offset is the one that the walk from the first cluster
-- ends at, or the walk's error, where a cluster is not empty and the offset is an `int`; and the cache that is left holds.
pub get_nth_cluster-walk_from :
    (drive : Drive) (fs : FatPrivate) (desc : Option Cache) (start offset : ℕ)
    → cluster_bytes fs ≢ 0
    → offset < 2 ^ 31
    → IsCached drive fs start desc
    → Looks drive fs start (offset / cluster_bytes fs) (get_nth_cluster drive fs desc start offset)
unfolding walk_from
get_nth_cluster-walk_from drive fs desc start offset nz lt h =
    elim (dec_zero (offset / cluster_bytes fs)) [
      | inl z ↦
          subst (Looks drive fs start (offset / cluster_bytes fs))
            (sym (get_nth_cluster_first drive fs desc start offset nz lt z))
            (
              ap (λ n. walk_from drive fs n start) {x = 0} {y = offset / cluster_bytes fs} (sym z),
              h,
            )
      | inr far ↦ get_nth_cluster_far drive fs desc start offset nz lt far h
    ]
