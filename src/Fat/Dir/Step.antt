-- ===== src/Fat/Dir/Step.antt =====
-- One step of dir_next in src/fs/fat.c, from an entry to the next.
use mathlib.Core.Path.{subst}
use native.Mathlib.Nat.{mod-lt, mod_self, mod-eq_of_lt}
use beaner_os.Base.Masks.{bit_positive}
use beaner_os.Fat.Bytes.{Buf}
use beaner_os.Fat.State.{Fat, DiskOps, IsDevice, Geometry, ok, add32}
use beaner_os.Fat.Cache.View.{Coherent, Keeps, Keeps-refl}
use beaner_os.Fat.Geo.{clust_to_sect}
use beaner_os.Fat.Table.{ClustFlags, used, last, classify, get_fat, entry_result}
use beaner_os.Fat.Table.Entries.{IsLaidOut}
use beaner_os.Fat.Table.Get.{get_fat-classify}
use beaner_os.Fat.Chain.Links.{Chain}
use beaner_os.Fat.Chain.Remove.{table_of}
use beaner_os.Fat.Chain.Scan.{IsCluster}
use beaner_os.Fat.Dir.{Dir, dir_next}
use beaner_os.Fat.Dir.Walk.{
  standing, same_clust, next_clust, nth-last, within_sector, within_cluster, behind_cluster,
  next_used, next_last, Next, here, over, same_sector, next_sector, masked,
}
use beaner_os.Fat.File.Position.{
  IsSized, clust_idx, cluster_at, sector_at, nth-IsCluster, nth-next, clust_start,
}
use beaner_os.Base.{
  ltb, ◌==◌, ==-false_of_ne, length, get_or, ℕ, ◌+◌, ◌-◌, ◌*◌, ◌/◌, ◌%◌, ◌^◌, ◌≤◌, ◌<◌, bit_and,
  ◌≡◌, sym, ap, ◌∙◌, false, Option, some, List, arith, ==_iff, suc, refl, inl, inr, true, lt-cases,
}

module _ {D : Type 0} {ops : DiskOps D} {sector : D → ℕ → Buf} (dev : IsDevice ops sector)
    (f : Fat D) (lay : IsLaidOut f.geo) (z : IsSized f.geo)
    (aligned : f.geo.data_sect % 2 ^ f.geo.clust_shift ≡ 0) (coh : Coherent sector f) where
  read_entry :
      (c v : ℕ) (fl : ClustFlags)
      → c < f.geo.clust_cnt
      → table_of sector f c ≡ v
      → classify f.geo.clust_cnt v ≡ some fl
      → (g : Fat D) × (get_fat ops c f ≡ (ok (v, fl), g)) × Keeps sector f g
  read_entry c v fl lt e is =
      let (g, run, k) = get_fat-classify dev c f lay lt coh in
      (
        g,
        run
            ∙ ap (λ (m : ℕ). (entry_result m (classify f.geo.clust_cnt m), g)) e
            ∙ ap (λ (o : Option ClustFlags). (entry_result v o, g)) is,
        k,
      )

  -- A position by the place of the cluster, the sector in it, and the byte in that.
  abbrev placed : (cs : List ℕ) (k r b : ℕ) → Dir → Dir
  placed cs k r b x = record x {
    clust = get_or cs k 0;
    sect = f.geo.data_sect + (get_or cs k 0 - 2) * 2 ^ f.geo.clust_shift + r;
    idx = b;
  }

  placed-standing :
      (cs : List ℕ) (n q k r b : ℕ) (x : Dir)
      → n / 512 ≡ q
      → q / 2 ^ f.geo.clust_shift ≡ k
      → q % 2 ^ f.geo.clust_shift ≡ r
      → n % 512 ≡ b
      → placed cs k r b x ≡ standing f.geo cs n x
  placed-standing cs n q k r b x e ek er eb = sym (
      ap (λ m. placed cs (m / 2 ^ f.geo.clust_shift) (m % 2 ^ f.geo.clust_shift) (n % 512) x) e
      ∙ ap (λ m. placed cs m (q % 2 ^ f.geo.clust_shift) (n % 512) x) ek
      ∙ ap (λ m. placed cs k m (n % 512) x) er
      ∙ ap (λ m. placed cs k r m x) eb)

  -- The next sector in the cluster.
  to_next_sector :
      (cs : List ℕ) (n : ℕ) (x : Dir)
      → n % 32 ≡ 0
      → 512 ≤ n % 512 + 32
      → n / 512 % 2 ^ f.geo.clust_shift + 1 < 2 ^ f.geo.clust_shift
      → clust_idx f.geo n < length cs
      → IsCluster f.geo (cluster_at f.geo cs n)
      → Next sector cs n x f (dir_next ops (standing f.geo cs n x) f)
  to_next_sector cs n x e le more lt is =
      let p = 2 ^ f.geo.clust_shift in
      let positive = bit_positive f.geo.clust_shift in
      let q = n / 512 in
      let c = cluster_at f.geo cs n in
      let (eb, eq) = next_sector f.geo cs n e le in
      let (ek, er) = same_clust q p positive more in
      let test : ltb ((n % 512 + 32) % 2 ^ 16) 512 ≡ false = ground (arith, le) in
      let inner : (bit_and (add32 (sector_at f.geo cs n) 1) f.geo.clust_msk == 0) ≡ false =
        ==-false_of_ne _ 0 (λ zero_is.
          omega (arith, masked dev f lay z aligned coh cs q is, mod-eq_of_lt more, zero_is)) in
      let sect_is : add32 (sector_at f.geo cs n) 1 ≡ f.geo.data_sect + (c - 2) * p + (q % p + 1) =
        omega (arith, z.room c is, more) in
      let run =
        within_cluster ops (standing f.geo cs n x) f test inner
        ∙ ap (λ s. (ok tt, record x { clust = c; sect = s; idx = 0 }, f)) sect_is
        ∙ ap (λ y. (ok tt, y, f))
            (placed-standing cs (n + 32) (q + 1) (q / p) (q % p + 1) 0 x eq ek er eb) in
      let inside : clust_idx f.geo (n + 32) < length cs =
        omega (arith, ap (λ m. m / p) eq, ek, lt) in
      subst (Next sector cs n x f) (sym run) (here inside (Keeps-refl sector f coh))

  -- The next cluster, or none.
  to_next_cluster :
      {sclust : ℕ} (cs : List ℕ) (n : ℕ) (x : Dir)
      → Chain (table_of sector f) f.geo.clust_cnt sclust cs
      → 2 ≤ sclust
      → n % 32 ≡ 0
      → 512 ≤ n % 512 + 32
      → n / 512 % 2 ^ f.geo.clust_shift + 1 ≡ 2 ^ f.geo.clust_shift
      → clust_idx f.geo n < length cs
      → Next sector cs n x f (dir_next ops (standing f.geo cs n x) f)
  to_next_cluster cs n x chain two e le full lt =
      let p = 2 ^ f.geo.clust_shift in
      let positive = bit_positive f.geo.clust_shift in
      let q = n / 512 in
      let k = clust_idx f.geo n in
      let c = cluster_at f.geo cs n in
      let is : IsCluster f.geo c = nth-IsCluster k chain two lt in
      let (eb, eq) = next_sector f.geo cs n e le in
      let (ek, er) = next_clust q p positive full in
      let test : ltb ((n % 512 + 32) % 2 ^ 16) 512 ≡ false = ground (arith, le) in
      let outer : (bit_and (add32 (sector_at f.geo cs n) 1) f.geo.clust_msk == 0) ≡ true =
        (==_iff _ 0).1
          (masked dev f lay z aligned coh cs q is ∙ ap (λ m. m % p) full ∙ mod_self p) in
      let y = record x { clust = c; sect = add32 (sector_at f.geo cs n) 1; idx = 0 } in
      let run = behind_cluster ops (standing f.geo cs n x) f test outer in
      let k_next : clust_idx f.geo (n + 32) ≡ k + 1 = ap (λ m. m / p) eq ∙ ek in
      elim (lt-cases (suc k) (length cs)) [
        | inl more ↦
            let (is_next, is_used) = nth-next k chain more in
            let c' = get_or cs (suc k) 0 in
            let is' : IsCluster f.geo c' = nth-IsCluster (suc k) chain two more in
            let (g, read, keeps) = read_entry c c' used is.1 is_next is_used in
            let start : clust_to_sect g.geo c' ≡ f.geo.data_sect + (c' - 2) * p + 0 =
              ap (λ (o : Geometry). clust_to_sect o c') keeps.geo
              ∙ clust_start f.geo c' z is'
              ∙ omega arith in
            let all =
              run
              ∙ next_used ops c' y f g read
              ∙ ap (λ s. (ok tt, record x { clust = c'; sect = s; idx = 0 }, g)) start
              ∙ ap (λ w. (ok tt, w, g))
                  (placed-standing cs (n + 32) (q + 1) (suc k) 0 0 x eq (ek ∙ omega arith) er eb) in
            subst (Next sector cs n x f) (sym all) (here (omega (arith, k_next, more)) keeps)
        | inr none_left ↦
            let end : suc k ≡ length cs = omega (arith, lt, none_left) in
            let (g, read, keeps) =
              read_entry c (table_of sector f c) last is.1 refl (nth-last k chain end) in
            subst (Next sector cs n x f)
              (sym (run ∙ next_last ops (table_of sector f c) y f g read))
              (over (omega (arith, k_next, end)) keeps)
      ]

  to_next_entry :
      (cs : List ℕ) (n : ℕ) (x : Dir)
      → n % 512 + 32 < 512
      → clust_idx f.geo n < length cs
      → Next sector cs n x f (dir_next ops (standing f.geo cs n x) f)
  to_next_entry cs n x less lt =
      let (eb, eq) = same_sector f.geo cs n less in
      let fits : (n % 512 + 32) % 2 ^ 16 < 512 = omega (arith, less) in
      let idx_is : (n % 512 + 32) % 2 ^ 16 ≡ n % 512 + 32 = omega (arith, less) in
      let run =
        within_sector ops (standing f.geo cs n x) f fits
        ∙ ap (λ b. (ok tt, record (standing f.geo cs n x) { idx = b }, f)) idx_is
        ∙ ap (λ y. (ok tt, y, f))
            (placed-standing cs (n + 32) (n / 512) (clust_idx f.geo n)
              (n / 512 % 2 ^ f.geo.clust_shift) (n % 512 + 32) x eq refl refl eb) in
      let inside : clust_idx f.geo (n + 32) < length cs =
        omega (arith, ap (λ m. m / 2 ^ f.geo.clust_shift) eq, lt) in
      subst (Next sector cs n x f) (sym run) (here inside (Keeps-refl sector f coh))

  -- On a working device with a coherent cache, let the tables lie apart, the clusters lie in
  -- sectors below 2 ^ 32 - 1, and the data begin at a multiple of the cluster size. From an entry
  -- of a directory in a chain of clusters, `dir_next` goes to the entry 32 bytes behind it, in the
  -- same sector, the next sector or the next cluster of the chain, or gives FAT_ERR_EOF where the
  -- chain ends; what the volume holds stays the same.
  pub dir_next-Next :
      {sclust : ℕ} (cs : List ℕ) (n : ℕ) (x : Dir)
      → Chain (table_of sector f) f.geo.clust_cnt sclust cs
      → 2 ≤ sclust
      → n % 32 ≡ 0
      → clust_idx f.geo n < length cs
      → Next sector cs n x f (dir_next ops (standing f.geo cs n x) f)
  dir_next-Next cs n x chain two e lt =
      let low = mod-lt (n / 512) (bit_positive f.geo.clust_shift) in
      elim (lt-cases (n % 512 + 32) 512) [
        | inl less ↦ to_next_entry cs n x less lt
        | inr le ↦ elim (lt-cases (n / 512 % 2 ^ f.geo.clust_shift + 1) (2 ^ f.geo.clust_shift)) [
          | inl more ↦
              to_next_sector cs n x e le more lt (nth-IsCluster (clust_idx f.geo n) chain two lt)
          | inr full ↦ to_next_cluster cs n x chain two e le (omega (arith, low, full)) lt
        ]
      ]
