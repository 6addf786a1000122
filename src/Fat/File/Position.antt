-- ===== src/Fat/File/Position.antt =====
-- Where fat_file_seek of src/fs/fat.c puts an open file, along the chain of its clusters.
use native.Mathlib.Nat.{div-div-eq-div-mul, mod-lt}
use beaner_os.Base.Masks.{bit_positive, bit_and-mask}
use beaner_os.Fat.Bytes.{Buf, get32}
use beaner_os.Fat.State.{Fat, Geometry, add32, sub32}
use beaner_os.Fat.Cache.View.{Coherent}
use beaner_os.Fat.Geo.{clust_to_sect}
use beaner_os.Fat.Table.{used, item, classify}
use beaner_os.Fat.Table.Entries.{entry}
use beaner_os.Fat.Table.Still.{Still, view-clean}
use beaner_os.Fat.Chain.Links.{Chain, end, link}
use beaner_os.Fat.Chain.Scan.{IsCluster}
use beaner_os.Fat.File.{no_sect}
use beaner_os.Base.{
  length, get_or, ℕ, zero, suc, ◌+◌, ◌-◌, ◌*◌, ◌/◌, ◌%◌, ◌^◌, ◌≤◌, ◌<◌, ◌≡◌, refl, sym, ap, ◌∙◌,
  ◌≢◌, some, List, arith, bit_and, false,
}

-- Sectors and clusters of a volume are numbered by uint32_t, and none has the number `no_sect`.
pub record IsSized (geo : Geometry) : Type 0 where
  pub mask : geo.clust_msk ≡ 2 ^ geo.clust_shift - 1
  pub shift : 512 * 2 ^ geo.clust_shift < 2 ^ 32
  pub base : geo.data_sect ≢ 0
  pub room :
      (c : ℕ)
      → IsCluster geo c
      → geo.data_sect + (c - 2) * 2 ^ geo.clust_shift + 2 ^ geo.clust_shift < 2 ^ 32

-- Which cluster of the file, counted from 0, byte `n` is in; the cluster; and its sector.
abbrev pub clust_idx : Geometry → ℕ → ℕ
clust_idx geo n = n / 512 / 2 ^ geo.clust_shift

abbrev pub cluster_at : Geometry → (cs : List ℕ) (n : ℕ) → ℕ
cluster_at geo cs n = get_or cs (clust_idx geo n) 0

abbrev pub sector_at : Geometry → (cs : List ℕ) (n : ℕ) → ℕ
sector_at geo cs n =
    geo.data_sect + (cluster_at geo cs n - 2) * 2 ^ geo.clust_shift + n / 512 % 2 ^ geo.clust_shift

-- The low 28 bits of the first table, on a device that holds `content`.
abbrev pub table_in : Geometry → (content : ℕ → Buf) → ℕ → ℕ
table_in geo content c = get32 (content (geo.fat_sect0 + c / 128)) (item c) % 2 ^ 28

-- The clusters of a chain, by their place in it.
pub nth_of : {table : ℕ → ℕ} {cnt c : ℕ} {cs : List ℕ} → Chain table cnt c cs → get_or cs 0 0 ≡ c
nth_of (end lt e) = refl
nth_of (link lt e u out s) = refl

classify-used : (cnt n : ℕ) → classify cnt n ≡ some used → (2 ≤ n) × (n < cnt)
unfolding classify
classify-used cnt n e = ground arith

pub nth-IsCluster :
    {table : ℕ → ℕ} {cnt c : ℕ} {cs : List ℕ} (k : ℕ)
    → Chain table cnt c cs
    → 2 ≤ c
    → k < length cs
    → (2 ≤ get_or cs k 0) × (get_or cs k 0 < cnt)
nth-IsCluster zero (end lt e) two h = (two, lt)
nth-IsCluster (suc k) (end lt e) two h = absurd (omega arith)
nth-IsCluster zero (link lt e u out s) two h = (two, lt)
nth-IsCluster {table} {cnt} (suc k) (link lt e u out s) two h =
    nth-IsCluster k s (classify-used cnt _ u).0 (omega arith)

pub nth-next :
    {table : ℕ → ℕ} {cnt c : ℕ} {cs : List ℕ} (k : ℕ)
    → Chain table cnt c cs
    → suc k < length cs
    → (table (get_or cs k 0) ≡ get_or cs (suc k) 0)
      × (classify cnt (get_or cs (suc k) 0) ≡ some used)
nth-next k (end lt e) h = absurd (omega arith)
nth-next {table} {cnt} zero (link lt e u out s) h =
    (e ∙ sym (nth_of s), ap (classify cnt) (nth_of s) ∙ u)
nth-next (suc k) (link lt e u out s) h = nth-next k s (omega arith)

le_mul : (a p : ℕ) → 0 < p → a ≤ a * p
le_mul a zero positive = absurd (omega arith)
le_mul a (suc p) positive = omega arith

sect_sum :
    (base c p r : ℕ)
    → 0 < p
    → 2 ≤ c
    → r < p
    → base + (c - 2) * p + p < 2 ^ 32
    → (add32 (sub32 c 2 * p % 2 ^ 32) base + r) % 2 ^ 32 ≡ base + (c - 2) * p + r
sect_sum base c p r positive two low room =
    let small : sub32 c 2 ≡ c - 2 = omega (arith, le_mul (c - 2) p positive) in
    rw small (omega arith)

-- The driver's arithmetic on cluster and offset gives the sector.
pub seek_sect :
    (geo : Geometry) (c n : ℕ)
    → IsSized geo
    → IsCluster geo c
    → add32 (clust_to_sect geo c) (bit_and (n / 512) geo.clust_msk)
      ≡ geo.data_sect + (c - 2) * 2 ^ geo.clust_shift + n / 512 % 2 ^ geo.clust_shift
unfolding clust_to_sect
seek_sect geo c n z is =
    let masked : bit_and (n / 512) geo.clust_msk ≡ n / 512 % 2 ^ geo.clust_shift =
      ap (bit_and (n / 512)) z.mask ∙ bit_and-mask (n / 512) geo.clust_shift in
    let low = mod-lt (n / 512) (bit_positive geo.clust_shift) in
    ap (λ (m : ℕ). add32 (clust_to_sect geo c) m) masked
    ∙ sect_sum geo.data_sect c (2 ^ geo.clust_shift) _ (bit_positive geo.clust_shift) is.0 low
        (z.room c is)

-- The first sector of a cluster.
pub clust_start :
    (geo : Geometry) (c : ℕ)
    → IsSized geo
    → IsCluster geo c
    → clust_to_sect geo c ≡ geo.data_sect + (c - 2) * 2 ^ geo.clust_shift
unfolding clust_to_sect
clust_start geo c z is =
    let p = 2 ^ geo.clust_shift in
    let positive = bit_positive geo.clust_shift in
    omega (arith, sect_sum geo.data_sect c p 0 positive is.0 positive (z.room c is))

-- The sector is a number of its own, neither 0 nor that of a file without a sector.
pub sector_at-bound :
    (geo : Geometry) (cs : List ℕ) (n : ℕ)
    → IsSized geo
    → IsCluster geo (cluster_at geo cs n)
    → (sector_at geo cs n ≢ 0) × (sector_at geo cs n < no_sect)
sector_at-bound geo cs n z is =
    let low = mod-lt (n / 512) (bit_positive geo.clust_shift) in
    (omega (arith, z.base), omega (arith, z.room (cluster_at geo cs n) is, low))

pub seek_idx :
    (geo : Geometry) (n : ℕ)
    → IsSized geo
    → n / (512 * 2 ^ geo.clust_shift % 2 ^ 32) ≡ clust_idx geo n
seek_idx geo n z =
    ap (λ (m : ℕ). n / m) (omega (arith, z.shift))
    ∙ sym (div-div-eq-div-mul n 512 (2 ^ geo.clust_shift))

module _ {D : Type 0} (sector : D → ℕ → Buf) (geo : Geometry) (content : ℕ → Buf) where
  -- A volume of the geometry `geo` with nothing to write back, whose device holds `content`.
  pub record IsAtRest (f : Fat D) : Type 0 where
    pub coherent : Coherent sector f
    pub clean : f.buf_dirty ≡ false
    pub geo_is : f.geo ≡ geo
    pub disk : (t : ℕ) → t ≢ 0 → sector f.disk t ≡ content t

  pub entry-IsAtRest :
      (c : ℕ) (f : Fat D)
      → geo.fat_sect0 ≢ 0
      → IsAtRest f
      → entry sector f geo.fat_sect0 c % 2 ^ 28 ≡ table_in geo content c
  unfolding entry
  entry-IsAtRest c f nz v =
      ap (λ b. get32 b (item c) % 2 ^ 28)
        (view-clean sector f (geo.fat_sect0 + c / 128) v.coherent v.clean (omega arith)
          ∙ v.disk (geo.fat_sect0 + c / 128) (omega arith))

  pub Still-IsAtRest : (f g : Fat D) → Still sector f g → IsAtRest f → IsAtRest g
  Still-IsAtRest f g s v = record {
    coherent = s.keeps.coherent;
    clean = s.clean;
    geo_is = s.keeps.geo ∙ v.geo_is;
    disk = λ t nz. s.disk t nz ∙ v.disk t nz;
  }
