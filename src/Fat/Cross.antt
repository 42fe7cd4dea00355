-- ===== src/Fat/Cross.antt =====
-- Blocks and whole reads of a file, `fat16_read` of src/kernel/fs/fat16/fat16.c, and a read that
-- leaves its cluster.
use git_os.Base.{
  ℕ, zero, suc, ◌+◌, ◌-◌, ◌*◌, ◌/◌, ◌%◌, ◌^◌, ◌<◌, ◌≤◌, ◌≡◌, ◌≢◌, refl, ap, ◌∙◌, sym, arith, Option,
  some, List, [], ◌++◌, add32,
}
use mathlib.Core.Option
use mathlib.Core.Path.{subst}
use mathlib.Core.List.{append-nil}
use native.Mathlib.Nat.{mod-lt}
use git_os.Disk.{Drive}
use git_os.Disk.Stream.{bytes, bytes-++}
use git_os.Fat.{
  as_int, FatPrivate, FatFile, FileDescriptor, item_file, with_cache, get_first_cluster, Cache,
  cluster_bytes, get_nth_cluster, read_cluster, read_blocks, read,
}
use git_os.Fat.Chain.{IsCached, get_nth_cluster-walk_from}
use git_os.Fat.Content.{IsFile, cluster_position, file_bytes, file_bytes-++, round_bytes}
use git_os.Fat.Read.{StaysWithin, read_cluster-file_bytes, read_cluster_round, round_size, found}

-- What `fat16_read` owes for its blocks.
abbrev pub ReadsBlocks :
    Drive → FatPrivate → ℕ → List ℕ → ℕ → Option (List ℕ × ℕ × Option Cache) → Type 0
ReadsBlocks drive fs start out end result =
    (desc : Option Cache) × ◌≡◌ {A = Option (List ℕ × ℕ × Option Cache)} result
      (some (out, end, desc))
    × IsCached drive fs start desc

read_blocks_round :
    (drive : Drive) (fs : FatPrivate) (desc desc' : Option Cache) (first offset size nmemb : ℕ)
    (out : List ℕ)
    → read_cluster drive fs size desc first offset size ≡ some (out, desc')
    → offset + size < 2 ^ 31
    → read_blocks drive fs desc first offset size (suc nmemb)
      ≡ Option.map
          (λ r. (out ++ r.0, r.1, r.2))
          (read_blocks drive fs desc' first (offset + size) size nmemb)
unfolding read_blocks
read_blocks_round drive fs desc desc' first offset size nmemb out e h =
    let small : add32 offset size ≡ offset + size = omega arith in
    let int : as_int size ≡ size = ground arith in rw (read_blocks, int, e, small) refl

read_blocks_none :
    (drive : Drive) (fs : FatPrivate) (cluster : ℕ → ℕ) (desc : Option Cache)
    (first offset size : ℕ)
    → ◌≡◌ {A = Option (List ℕ × ℕ × Option Cache)}
        (read_blocks drive fs desc first offset size 0)
        (some ([], offset, desc))
unfolding read_blocks
read_blocks_none drive fs cluster desc first offset size = refl

le_self : (n : ℕ) → n ≤ n
le_self n = omega arith

next_block : (offset size i : ℕ) → offset + (i + 1) * size ≡ offset + size + i * size
next_block offset size i = omega arith

-- Blocks one after the other.
read_blocks-file_bytes :
    (drive : Drive) (fs : FatPrivate) (cluster : ℕ → ℕ) (start last : ℕ) (desc : Option Cache)
    (offset size nmemb : ℕ)
    → cluster_bytes fs ≢ 0
    → IsFile drive fs start cluster last
    → IsCached drive fs start desc
    → offset + nmemb * size ≤ (last + 1) * cluster_bytes fs
    → offset + nmemb * size < 2 ^ 31
    → ((i : ℕ) → i < nmemb → StaysWithin fs (offset + i * size) size)
    → ReadsBlocks drive fs start
        (file_bytes drive fs cluster offset (nmemb * size))
        (offset + nmemb * size)
        (read_blocks drive fs desc start offset size nmemb)
unfolding read_blocks file_bytes
read_blocks-file_bytes drive fs cluster start last desc offset size zero nz f h l b w =
    let none_left : 0 * size ≡ 0 = omega arith in
    let still : offset + 0 * size ≡ offset = omega arith in (desc, rw (still, none_left) refl, h)
read_blocks-file_bytes drive fs cluster start last desc offset size (suc nmemb) nz f h l b w =
    let more : suc nmemb * size ≡ size + nmemb * size = omega arith in
    let first : offset + 0 * size ≡ offset = omega arith in
    let (desc', e, h') =
      read_cluster-file_bytes drive fs cluster start last size desc offset size nz f h
        (le_self size) (omega arith) (omega arith)
        (subst (λ o. StaysWithin fs o size) first (w 0 (omega arith))) in
    let (desc'', r, h'') =
      read_blocks-file_bytes drive fs cluster start last desc' (offset + size) size nmemb nz f h'
        (omega arith) (omega arith)
        (λ i lt.
          subst (λ o. StaysWithin fs o size) (next_block offset size i)
            (w (i + 1) (omega arith))) in
    let end : offset + size + nmemb * size ≡ offset + suc nmemb * size = omega arith in
    (
      desc'',
      read_blocks_round drive fs desc desc' start offset size nmemb
            (file_bytes drive fs cluster offset size) e (omega arith)
          ∙ ap (Option.map (λ q. (file_bytes drive fs cluster offset size ++ q.0, q.1, q.2))) r
          ∙ ap (λ l. some (l, offset + size + nmemb * size, desc''))
              (file_bytes-++ drive fs cluster offset size (nmemb * size) (suc nmemb * size)
                (sym more))
          ∙ ap (λ p. some (file_bytes drive fs cluster offset (suc nmemb * size), p, desc'')) end,
      h'',
    )

-- `fat16_read` reads the blocks of a file whose chain is sound, returns their number, moves the
-- position behind them and leaves a cache that holds, where the blocks lie in the clusters of the
-- chain and below 2 GiB, and each begins with a cluster or stays within one.
pub read-file_bytes :
    (drive : Drive) (fs : FatPrivate) (cluster : ℕ → ℕ) (last : ℕ) (desc : FileDescriptor)
    (f : FatFile) (size nmemb : ℕ)
    → desc.item ≡ item_file f
    → cluster_bytes fs ≢ 0
    → IsFile drive fs (get_first_cluster f) cluster last
    → IsCached drive fs (get_first_cluster f) (some desc.cache)
    → desc.offset_pos + nmemb * size ≤ (last + 1) * cluster_bytes fs
    → desc.offset_pos + nmemb * size < 2 ^ 31
    → ((i : ℕ) → i < nmemb → StaysWithin fs (desc.offset_pos + i * size) size)
    → (cache : Option Cache) × ◌≡◌ {A = Option (List ℕ × ℕ × FileDescriptor)}
        (read drive fs desc size nmemb)
        (some (
          file_bytes drive fs cluster desc.offset_pos (nmemb * size),
          nmemb,
          with_cache desc (desc.offset_pos + nmemb * size) cache,
        ))
      × IsCached drive fs (get_first_cluster f) cache
unfolding read
read-file_bytes drive fs cluster last desc f size nmemb i nz file h l b w =
    let (cache, r, h') =
      read_blocks-file_bytes drive fs cluster (get_first_cluster f) last (some desc.cache)
        desc.offset_pos size nmemb nz file h l b w in
    (cache, rw (i, r) refl, h')

last_round : (fs : FatPrivate) (total : ℕ) → total ≤ cluster_bytes fs → round_size fs total ≡ total
last_round fs total h = ground arith

-- The loop ends behind a round that takes all there is.
single_round :
    (drive : Drive) (fs : FatPrivate) (fuel : ℕ) (desc : Option Cache) (start offset total k : ℕ)
    (take_bytes : ℕ → List ℕ)
    → k ≡ total
    → Option.map
        (λ (q : List ℕ × Option Cache). q.0)
        (Option.map {A = List ℕ × Option Cache}
          (λ r. (take_bytes k ++ r.0, r.1))
          (read_cluster drive fs fuel desc start (offset + k) (total - k)))
      ≡ some (take_bytes total)
unfolding read_cluster
single_round drive fs fuel desc start offset total k take_bytes e =
    let done : total - total ≡ 0 = omega arith in
    rw (read_cluster, e, done) (ap some (append-nil (take_bytes total)))

-- A read of a cluster's length or less that ends behind its cluster does not go on in the file's
-- next cluster: it takes the bytes that lie behind the cluster on the drive. The chain must be sound,
-- the cache hold, and the offset and the two clusters' length on the drive lie below 2 GiB.
pub read_cluster_crosses :
    (drive : Drive) (fs : FatPrivate) (cluster : ℕ → ℕ) (start last fuel : ℕ) (desc : Option Cache)
    (offset rest : ℕ)
    → cluster_bytes fs ≢ 0
    → IsFile drive fs start cluster last
    → IsCached drive fs start desc
    → offset / cluster_bytes fs ≤ last
    → offset < 2 ^ 31
    → suc rest ≤ cluster_bytes fs
    → cluster_bytes fs < offset % cluster_bytes fs + suc rest
    → cluster_position fs (cluster (offset / cluster_bytes fs)) + 2 * cluster_bytes fs < 2 ^ 31
    → Option.map (λ r. r.0) (read_cluster drive fs (suc fuel) desc start offset (suc rest))
      ≡ some (
          file_bytes drive fs cluster offset (cluster_bytes fs - offset % cluster_bytes fs)
          ++ bytes drive
              (cluster_position fs (cluster (offset / cluster_bytes fs)) + cluster_bytes fs)
              (offset % cluster_bytes fs + suc rest - cluster_bytes fs))
read_cluster_crosses drive fs cluster start last fuel desc offset rest nz f h inside lt le over
      held =
    let c = cluster (offset / cluster_bytes fs) in
    let r = offset % cluster_bytes fs in
    let small : r < cluster_bytes fs = mod-lt offset (omega arith) in
    let (desc', e, h') =
      found drive fs start (offset / cluster_bytes fs) c
        (get_nth_cluster drive fs desc start offset)
        (get_nth_cluster-walk_from drive fs desc start offset nz lt h)
        (f.chain (offset / cluster_bytes fs) inside) in
    let k : round_size fs (suc rest) ≡ suc rest = last_round fs (suc rest) le in
    ap (Option.map (λ (q : List ℕ × Option Cache). q.0)) (
      read_cluster_round drive fs fuel desc desc' start offset rest c e
        (f.positive (offset / cluster_bytes fs) inside) (f.int (offset / cluster_bytes fs) inside)
        (omega arith))
    ∙ single_round drive fs fuel desc' start offset (suc rest) (round_size fs (suc rest))
        (bytes drive (cluster_position fs c + r)) k
    ∙ ap some (
        sym (
          bytes-++ drive (cluster_position fs c + r) (cluster_bytes fs - r)
            (r + suc rest - cluster_bytes fs) (suc rest) (omega arith))
        ∙ ap
            (λ l.
              l
              ++ bytes drive (cluster_position fs c + r + (cluster_bytes fs - r))
                  (r + suc rest - cluster_bytes fs))
            (round_bytes drive fs cluster offset (cluster_bytes fs - r) (omega arith))
        ∙ ap
            (λ p.
              file_bytes drive fs cluster offset (cluster_bytes fs - r)
              ++ bytes drive p (r + suc rest - cluster_bytes fs))
            (omega arith))
