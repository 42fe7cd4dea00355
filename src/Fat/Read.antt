-- ===== src/Fat/Read.antt =====
-- What `fat16_read_cluster` and `fat16_read` of src/kernel/fs/fat16/fat16.c read of a file.
use git_os.Base.{
  ℕ, zero, suc, ◌+◌, ◌-◌, ◌*◌, ◌/◌, ◌%◌, ◌^◌, ◌<◌, ◌≤◌, ◌≡◌, ◌≢◌, refl, ap, ◌∙◌, arith, Bool, true,
  false, Option, none, some, List, ◌++◌, ltb, if◌then◌else◌, add32, inl, inr, lt→ltb, Result, ok,
  ◌⊎◌,
}
use mathlib.Core.Option
use native.Mathlib.Nat.{mod-lt, add-mod_right, div-lt_iff_lt-mul}
use git_os.Disk.{Drive}
use git_os.Disk.Stream.{bytes, stream_read-bytes}
use git_os.Fat.{FatPrivate, Cache, cluster_bytes, walk_from, get_nth_cluster, read_cluster}
use git_os.Fat.Chain.{IsCached, Looks, get_nth_cluster-walk_from}
use git_os.Fat.Content.{cluster_position, IsFile, file_bytes, file_bytes-++, round_bytes}

-- A lookup that finds its cluster.
pub found :
    (drive : Drive) (fs : FatPrivate) (start target c : ℕ)
    (result : Option (Result ℕ × Option Cache))
    → Looks drive fs start target result
    → walk_from drive fs target start ≡ some (ok c)
    → (desc : Option Cache) × ◌≡◌ {A = Option (Result ℕ × Option Cache)} result (some (ok c, desc))
      × IsCached drive fs start desc
found drive fs start target c none (e, h) w = ground arith
found drive fs start target c (some (x, desc)) (e, h) w = (desc, ap (λ y. some (y, desc)) (cc), h)

-- The bytes that a round takes.
abbrev pub round_size : FatPrivate → ℕ → ℕ
round_size fs total = if ltb (cluster_bytes fs) total then cluster_bytes fs else total

-- A round of the loop whose cluster is found.
pub read_cluster_round :
    (drive : Drive) (fs : FatPrivate) (fuel : ℕ) (desc desc' : Option Cache)
    (start offset rest c : ℕ)
    → get_nth_cluster drive fs desc start offset ≡ some (ok c, desc')
    → 0 < c
    → c < 2 ^ 31
    → cluster_position fs c + offset % cluster_bytes fs + round_size fs (suc rest) < 2 ^ 31
    → read_cluster drive fs (suc fuel) desc start offset (suc rest)
      ≡ Option.map
          (λ r. (
            bytes drive
                  (cluster_position fs c + offset % cluster_bytes fs)
                  (round_size fs (suc rest))
                ++ r.0,
            r.1,
          ))
          (read_cluster drive fs fuel desc' start
            (offset + round_size fs (suc rest))
            (suc rest - round_size fs (suc rest)))
unfolding read_cluster
read_cluster_round drive fs fuel desc desc' start offset rest c e c0 c1 h =
    let small : add32 (cluster_position fs c) (offset % cluster_bytes fs)
        ≡ cluster_position fs c + offset % cluster_bytes fs =
      omega arith in
    rw
      (
        read_cluster,
        e,
        lt→ltb 0 c c0,
        lt→ltb c (2 ^ 31) c1,
        small,
        stream_read-bytes drive (cluster_position fs c + offset % cluster_bytes fs)
            (round_size fs (suc rest)) h,
      )
      refl

-- A block that starts a cluster, or ends within the cluster in which it starts.
abbrev pub StaysWithin : FatPrivate → ℕ → ℕ → Type 0
StaysWithin fs offset total =
    (offset % cluster_bytes fs ≡ 0) ⊎ (offset % cluster_bytes fs + total ≤ cluster_bytes fs)

-- What a read owes: the bytes, and a cache that holds.
abbrev pub Reads : Drive → FatPrivate → ℕ → List ℕ → Option (List ℕ × Option Cache) → Type 0
Reads drive fs start out result =
    (desc : Option Cache) × ◌≡◌ {A = Option (List ℕ × Option Cache)} result (some (out, desc))
    × IsCached drive fs start desc

target_inside :
    (fs : FatPrivate) (offset total last : ℕ)
    → cluster_bytes fs ≢ 0
    → 0 < total
    → offset + total ≤ (last + 1) * cluster_bytes fs
    → offset / cluster_bytes fs ≤ last
target_inside fs offset total last nz h b =
    let some_bytes : 0 < cluster_bytes fs = omega arith in
    let below : offset < (last + 1) * cluster_bytes fs = omega arith in
    let t : offset / cluster_bytes fs < last + 1 =
      (div-lt_iff_lt-mul {x = offset} {y = last + 1} some_bytes).1 below in
    omega arith

round_less :
    (fs : FatPrivate) (fuel rest : ℕ)
    → cluster_bytes fs ≢ 0
    → suc rest ≤ suc fuel
    → suc rest - round_size fs (suc rest) ≤ fuel
round_less fs fuel rest nz h = ground arith

round_whole :
    (fs : FatPrivate) (total : ℕ) → round_size fs total + (total - round_size fs total) ≡ total
round_whole fs total = ground arith

round_below :
    (fs : FatPrivate) (offset total end : ℕ)
    → offset + total < end
    → offset + round_size fs total + (total - round_size fs total) < end
round_below fs offset total end h = ground arith

round_end :
    (fs : FatPrivate) (offset total end : ℕ)
    → offset + total ≤ end
    → offset + round_size fs total + (total - round_size fs total) ≤ end
round_end fs offset total end h = ground arith

-- What the round leaves, where it is not the last.
round_rest :
    (fs : FatPrivate) (offset total : ℕ) (b : Bool)
    → cluster_bytes fs ≢ 0
    → StaysWithin fs offset total
    → ltb (cluster_bytes fs) total ≡ b
    → let k = if b then cluster_bytes fs else total in
      (offset % cluster_bytes fs + k ≤ cluster_bytes fs) × StaysWithin fs (offset + k) (total - k)
round_rest fs offset total false nz h e =
    let le : total ≤ cluster_bytes fs = ground arith in
    let m = mod-lt (offset + total) {m = cluster_bytes fs} (omega arith) in
    (ground arith, inr (omega arith))
round_rest fs offset total true nz (inl a) e =
    (omega arith, inl (add-mod_right offset (cluster_bytes fs) ∙ a))
round_rest fs offset total true nz (inr w) e = absurd (ground arith)

round_fits :
    (fs : FatPrivate) (offset total : ℕ)
    → cluster_bytes fs ≢ 0
    → StaysWithin fs offset total
    → (offset % cluster_bytes fs + round_size fs total ≤ cluster_bytes fs)
      × StaysWithin fs (offset + round_size fs total) (total - round_size fs total)
round_fits fs offset total nz h =
    round_rest fs offset total (ltb (cluster_bytes fs) total) nz h refl

read_cluster_none :
    (drive : Drive) (fs : FatPrivate) (cluster : ℕ → ℕ) (fuel : ℕ) (desc : Option Cache)
    (start offset : ℕ)
    → ◌≡◌ {A = Option (List ℕ × Option Cache)}
        (read_cluster drive fs fuel desc start offset 0)
        (some (file_bytes drive fs cluster offset 0, desc))
unfolding read_cluster file_bytes
read_cluster_none drive fs cluster fuel desc start offset = refl

-- `fat16_read_cluster` reads the bytes of a file whose chain is sound, and leaves a cache that holds,
-- where the block lies in the clusters of the chain and below 2 GiB, and begins with a cluster or
-- stays within one.
pub read_cluster-file_bytes :
    (drive : Drive) (fs : FatPrivate) (cluster : ℕ → ℕ) (start last fuel : ℕ) (desc : Option Cache)
    (offset total : ℕ)
    → cluster_bytes fs ≢ 0
    → IsFile drive fs start cluster last
    → IsCached drive fs start desc
    → total ≤ fuel
    → offset + total ≤ (last + 1) * cluster_bytes fs
    → offset + total < 2 ^ 31
    → StaysWithin fs offset total
    → Reads drive fs start
        (file_bytes drive fs cluster offset total)
        (read_cluster drive fs fuel desc start offset total)
read_cluster-file_bytes drive fs cluster start last fuel desc offset zero nz f h l b g w =
    (desc, read_cluster_none drive fs cluster fuel desc start offset, h)
read_cluster-file_bytes drive fs cluster start last zero desc offset (suc rest) nz f h l b g w =
    absurd (omega arith)
read_cluster-file_bytes drive fs cluster start last (suc fuel) desc offset (suc rest) nz f h l b g
      w =
    let target = offset / cluster_bytes fs in
    let inside : target ≤ last = target_inside fs offset (suc rest) last nz (omega arith) b in
    let c = cluster target in
    let walk = f.chain target inside in
    let (desc', e, h') =
      found drive fs start target c (get_nth_cluster drive fs desc start offset)
        (get_nth_cluster-walk_from drive fs desc start offset nz (omega arith) h) walk in
    let (fits, w') = round_fits fs offset (suc rest) nz w in
    let held = f.held target inside in
    let (desc'', more, h'') =
      read_cluster-file_bytes drive fs cluster start last fuel desc'
        (offset + round_size fs (suc rest)) (suc rest - round_size fs (suc rest)) nz f h'
        (round_less fs fuel rest nz l)
        (round_end fs offset (suc rest) ((last + 1) * cluster_bytes fs) b)
        (round_below fs offset (suc rest) (2 ^ 31) g) w' in
    (
      desc'',
      read_cluster_round drive fs fuel desc desc' start offset rest c e (f.positive target inside)
            (f.int target inside) (omega arith)
          ∙ ap
              (Option.map (λ r. (
                bytes drive (cluster_position fs c + offset % cluster_bytes fs)
                      (round_size fs (suc rest))
                    ++ r.0,
                r.1,
              )))
              more
          ∙ ap
              (λ l. some (
                l
                    ++ file_bytes drive fs cluster (offset + round_size fs (suc rest))
                        (suc rest - round_size fs (suc rest)),
                desc'',
              ))
              (round_bytes drive fs cluster offset (round_size fs (suc rest)) fits)
          ∙ ap (λ l. some (l, desc''))
              (file_bytes-++ drive fs cluster offset (round_size fs (suc rest))
                (suc rest - round_size fs (suc rest)) (suc rest) (round_whole fs (suc rest))),
      h'',
    )
