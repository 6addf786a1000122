-- ===== src/Fat/Dir/Walk.antt =====
-- dir_next of src/fs/fat.c along the clusters of a directory.
use native.Mathlib.Nat.{
  mod-lt, div-add-mod', mul-add-div_right, mul-add-mod_self_right, div-eq_of_lt, mod-eq_of_lt,
  div_self, mod_self,
}
use beaner_os.Base.Masks.{bit_positive, bit_and-mask}
use beaner_os.Fat.Bytes.{Buf}
use beaner_os.Fat.State.{Fat, DiskOps, IsDevice, Geometry, Res, ok, err, eof, add32}
use beaner_os.Fat.Cache.View.{Coherent, Keeps}
use beaner_os.Fat.Geo.{clust_to_sect}
use beaner_os.Fat.Table.{used, last, classify, get_fat}
use beaner_os.Fat.Table.Entries.{IsLaidOut}
use beaner_os.Fat.Chain.Links.{Chain, end, link}
use beaner_os.Fat.Chain.Scan.{IsCluster}
use beaner_os.Fat.Dir.{Dir, entry_size, at_clust, dir_at_clust, dir_next, next_clust_of}
use beaner_os.Fat.File.Position.{IsSized, clust_idx, cluster_at, sector_at}
use beaner_os.Base.{
  ltb, ◌==◌, lt→ltb, length, get_or, ℕ, zero, suc, ◌+◌, ◌*◌, ◌/◌, ◌%◌, ◌^◌, ◌<◌, bit_and, ◌≡◌, refl,
  sym, ap, ◌∙◌, true, false, some, List, arith, ◌-◌, ◌≤◌,
}

-- The walk stands at byte `n` of the directory, whose clusters are `cs`.
abbrev pub standing : Geometry → (cs : List ℕ) (n : ℕ) → Dir → Dir
standing geo cs n x = record x {
  clust = cluster_at geo cs n;
  sect = sector_at geo cs n;
  idx = n % 512;
}

step_div :
    (q p c : ℕ) → 0 < p → c ≡ q % p + 1 → ((q + 1) / p ≡ q / p + c / p) × ((q + 1) % p ≡ c % p)
step_div q p c positive e =
    let split : q + 1 ≡ q / p * p + c = omega (arith, div-add-mod' q p, e) in
    (
      ap (λ (n : ℕ). n / p) split ∙ mul-add-div_right positive (q / p) c,
      ap (λ (n : ℕ). n % p) split ∙ mul-add-mod_self_right (q / p) p c,
    )

-- The next sector is in the same cluster, or the first of the next one.
pub same_clust :
    (q p : ℕ) → 0 < p → q % p + 1 < p → ((q + 1) / p ≡ q / p) × ((q + 1) % p ≡ q % p + 1)
same_clust q p positive lt =
    let (d, m) = step_div q p (q % p + 1) positive refl in
    (omega (arith, d, div-eq_of_lt lt), m ∙ mod-eq_of_lt lt)

pub next_clust : (q p : ℕ) → 0 < p → q % p + 1 ≡ p → ((q + 1) / p ≡ q / p + 1) × ((q + 1) % p ≡ 0)
next_clust q p positive e =
    let (d, m) = step_div q p p positive (sym e) in
    (omega (arith, d, div_self positive), m ∙ mod_self p)

-- The number of a sector tells its place in the cluster.
place_in : (base c p r : ℕ) → 0 < p → base % p ≡ 0 → (base + c * p + r) % p ≡ r % p
place_in base c p r positive e =
    let split : base + c * p + r ≡ (base / p + c) * p + r = omega (arith, div-add-mod' base p, e) in
    ap (λ (n : ℕ). n % p) split ∙ mul-add-mod_self_right (base / p + c) p r

pub nth-last :
    {table : ℕ → ℕ} {cnt c : ℕ} {cs : List ℕ} (k : ℕ)
    → Chain table cnt c cs
    → suc k ≡ length cs
    → classify cnt (table (get_or cs k 0)) ≡ some last
nth-last zero (end lt e) h = e
nth-last (suc k) (end lt e) h = absurd (omega (arith, h))
nth-last zero (link lt e u out (end lt' e')) h = absurd (omega (arith, h))
nth-last zero (link lt e u out (link lt' e' u' out' s)) h = absurd (omega (arith, h))
nth-last (suc k) (link lt e u out s) h = nth-last k s (omega (arith, h))

module _ {D : Type 0} (ops : DiskOps D) where
  pub within_sector :
      (x : Dir) (f : Fat D)
      → (x.idx + entry_size) % 2 ^ 16 < 512
      → dir_next ops x f ≡ (ok tt, record x { idx = (x.idx + entry_size) % 2 ^ 16 }, f)
  unfolding dir_next
  within_sector x f lt = rw (lt→ltb _ _ lt) refl

  pub within_cluster :
      (x : Dir) (f : Fat D)
      → ltb ((x.idx + entry_size) % 2 ^ 16) 512 ≡ false
      → (bit_and (add32 x.sect 1) f.geo.clust_msk == 0) ≡ false
      → dir_next ops x f ≡ (ok tt, record x { idx = 0; sect = add32 x.sect 1 }, f)
  unfolding dir_next
  within_cluster x f e e' = rw (e, e') refl

  pub behind_cluster :
      (x : Dir) (f : Fat D)
      → ltb ((x.idx + entry_size) % 2 ^ 16) 512 ≡ false
      → (bit_and (add32 x.sect 1) f.geo.clust_msk == 0) ≡ true
      → dir_next ops x f ≡ next_clust_of ops (record x { idx = 0; sect = add32 x.sect 1 }) f
  unfolding dir_next
  behind_cluster x f e e' = rw (e, e') refl

  pub next_used :
      (n : ℕ) (x : Dir) (f g : Fat D)
      → get_fat ops x.clust f ≡ (ok (n, used), g)
      → next_clust_of ops x f
        ≡ (ok tt, record x { clust = n; sect = clust_to_sect g.geo n; idx = 0 }, g)
  unfolding next_clust_of dir_at_clust at_clust
  next_used n x f g run = rw run refl

  pub next_last :
      (n : ℕ) (x : Dir) (f g : Fat D)
      → get_fat ops x.clust f ≡ (ok (n, last), g)
      → next_clust_of ops x f ≡ (err eof, x, g)
  unfolding next_clust_of
  next_last n x f g run = rw run refl

-- The end of the directory, or where the walk stands next.
pub data Next {D : Type 0} (sector : D → ℕ → Buf) (cs : List ℕ) (n : ℕ) (x : Dir) (f : Fat D)
    : Res (Unit {0}) × Dir × Fat D → Type 0 where
  here :
      {g : Fat D}
      → clust_idx f.geo (n + 32) < length cs
      → Keeps sector f g
      → Next sector cs n x f (ok tt, standing f.geo cs (n + 32) x, g)
  over :
      {y : Dir} {g : Fat D}
      → clust_idx f.geo (n + 32) ≡ length cs
      → Keeps sector f g
      → Next sector cs n x f (err eof, y, g)

-- The place of an entry, one after another.
module _ (geo : Geometry) (cs : List ℕ) (n : ℕ) where
  pub same_sector :
      n % 512 + 32 < 512 → ((n + 32) % 512 ≡ n % 512 + 32) × ((n + 32) / 512 ≡ n / 512)
  same_sector lt = (omega arith, omega arith)

  pub next_sector :
      n % 32 ≡ 0 → 512 ≤ n % 512 + 32 → ((n + 32) % 512 ≡ 0) × ((n + 32) / 512 ≡ n / 512 + 1)
  next_sector e le = (omega arith, omega arith)

module _ {D : Type 0} {ops : DiskOps D} {sector : D → ℕ → Buf} (dev : IsDevice ops sector)
    (f : Fat D) (lay : IsLaidOut f.geo) (z : IsSized f.geo)
    (aligned : f.geo.data_sect % 2 ^ f.geo.clust_shift ≡ 0) (coh : Coherent sector f) where
  -- `standing` by the number of the sector in the directory, and the byte in it.
  abbrev pub stands : (cs : List ℕ) (q b : ℕ) → Dir → Dir
  stands cs q b x = record x {
    clust = get_or cs (q / 2 ^ f.geo.clust_shift) 0;
    sect =
        f.geo.data_sect
        + (get_or cs (q / 2 ^ f.geo.clust_shift) 0 - 2) * 2 ^ f.geo.clust_shift
        + q % 2 ^ f.geo.clust_shift;
    idx = b;
  }

  pub stands-along :
      (cs : List ℕ) (x : Dir) {q q' b b' : ℕ}
      → q ≡ q'
      → b ≡ b'
      → stands cs q b x ≡ stands cs q' b' x
  stands-along cs x {q} {q'} {b} {b'} e e' =
      ap (λ k. stands cs k b x) e ∙ ap (λ k. stands cs q' k x) e'

  -- What the test for the end of a cluster sees.
  pub masked :
      (cs : List ℕ) (q : ℕ)
      → IsCluster f.geo (get_or cs (q / 2 ^ f.geo.clust_shift) 0)
      → bit_and
          (add32
            (f.geo.data_sect
              + (get_or cs (q / 2 ^ f.geo.clust_shift) 0 - 2) * 2 ^ f.geo.clust_shift
              + q % 2 ^ f.geo.clust_shift)
            1)
          f.geo.clust_msk
        ≡ (q % 2 ^ f.geo.clust_shift + 1) % 2 ^ f.geo.clust_shift
  masked cs q is =
      let p = 2 ^ f.geo.clust_shift in
      let c = get_or cs (q / p) 0 in
      let low = mod-lt q (bit_positive f.geo.clust_shift) in
      let small : add32 (f.geo.data_sect + (c - 2) * p + q % p) 1
          ≡ f.geo.data_sect + (c - 2) * p + (q % p + 1) =
        omega (arith, z.room c is, low) in
      ap (λ m. bit_and m f.geo.clust_msk) small
      ∙ ap (bit_and _) z.mask
      ∙ bit_and-mask _ f.geo.clust_shift
      ∙ place_in f.geo.data_sect (c - 2) p (q % p + 1) (bit_positive f.geo.clust_shift) aligned
