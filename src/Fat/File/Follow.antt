-- ===== src/Fat/File/Follow.antt =====
-- The loop of fat_file_seek in src/fs/fat.c that follows the cluster chain of a file.
use mathlib.Core.Path.{subst}
use beaner_os.Fat.Bytes.{Buf}
use beaner_os.Fat.State.{Fat, DiskOps, IsDevice, Geometry, Res, ok}
use beaner_os.Fat.Table.{ClustFlags, used, classify, entry_result, get_fat}
use beaner_os.Fat.Table.Entries.{IsLaidOut, entry}
use beaner_os.Fat.Table.Still.{get_fat-Still}
use beaner_os.Fat.Chain.{Junk}
use beaner_os.Fat.Chain.Links.{Chain}
use beaner_os.Fat.File.{File, next_of, follow}
use beaner_os.Fat.File.Position.{
  IsAtRest, entry-IsAtRest, Still-IsAtRest, table_in, nth-IsCluster, nth-next,
}
use beaner_os.Base.{
  length, get_or, ℕ, zero, suc, ◌+◌, ◌%◌, ◌^◌, ◌≤◌, ◌<◌, ◌≡◌, refl, sym, ap, ◌∙◌, some, List, arith,
}

abbrev Below : ℕ → Geometry → Type 0
Below c geo = c < geo.clust_cnt

module _ {D : Type 0} {ops : DiskOps D} {sector : D → ℕ → Buf} (dev : IsDevice ops sector)
    (junk : Junk) (geo : Geometry) (content : ℕ → Buf) (lay : IsLaidOut geo) where
  get_entry :
      (c n : ℕ) (f : Fat D)
      → IsAtRest sector geo content f
      → c < geo.clust_cnt
      → table_in geo content c ≡ n
      → classify geo.clust_cnt n ≡ some used
      → (g : Fat D) × (get_fat ops c f ≡ (ok (n, used), g)) × IsAtRest sector geo content g
  get_entry c n f v lt e is =
      let (g, run, s) =
        get_fat-Still dev c f (subst IsLaidOut (sym v.geo_is) lay)
          (subst (Below c) (sym v.geo_is) lt) v.coherent v.clean in
      (
        g,
        run
            ∙ ap (λ (o : Geometry). result o (entry sector f o.fat_sect0 c % 2 ^ 28) g) v.geo_is
            ∙ ap (λ m. result geo m g) (entry-IsAtRest sector geo content c f lay.first v ∙ e)
            ∙ ap (λ o. (entry_result n o, g)) is,
        Still-IsAtRest sector geo content f g s v,
      )
    where
      result : Geometry → ℕ → Fat D → Res (ℕ × ClustFlags) × Fat D
      result o m g = (entry_result m (classify o.clust_cnt m), g)

  next_of-run :
      (n : ℕ) (x : File) (f g : Fat D)
      → get_fat ops x.clust f ≡ (ok (n, used), g)
      → next_of ops junk x f ≡ (ok tt, record x { clust = n }, g)
  unfolding next_of
  next_of-run n x f g run = rw run refl

  follow_step :
      (k : ℕ) (x y z : File) (f g h : Fat D)
      → next_of ops junk x f ≡ (ok tt, y, g)
      → follow ops junk k y g ≡ (ok tt, z, h)
      → follow ops junk (suc k) x f ≡ (ok tt, z, h)
  unfolding follow
  follow_step k x y z f g h e rest = rw e rest

  -- `n` rounds lead from the cluster at place `k` of the chain to the one at `k + n`.
  pub follow-run :
      {sclust : ℕ} {cs : List ℕ} (n k : ℕ) (x : File) (f : Fat D)
      → Chain (table_in geo content) geo.clust_cnt sclust cs
      → 2 ≤ sclust
      → k + n < length cs
      → x.clust ≡ get_or cs k 0
      → IsAtRest sector geo content f
      → (g : Fat D) × (follow ops junk n x f ≡ (ok tt, record x { clust = get_or cs (k + n) 0 }, g))
        × IsAtRest sector geo content g
  unfolding follow
  follow-run {sclust} {cs} zero k x f chain two inside at v = (
    f,
    ap (λ c. (ok tt, record x { clust = c }, f)) (at ∙ ap (λ i. get_or cs i 0) (omega arith)),
    v,
  )
  follow-run {sclust} {cs} (suc n) k x f chain two inside at v =
      let (is_next, is_used) = nth-next k chain (omega arith) in
      let (lo, hi) = nth-IsCluster k chain two (omega arith) in
      let (g, run, w) =
        get_entry x.clust (get_or cs (suc k) 0) f v (omega (arith, at))
          (ap (table_in geo content) at ∙ is_next) is_used in
      let y = record x { clust = get_or cs (suc k) 0 } in
      let (h, rest, u) = follow-run n (suc k) y g chain two (omega arith) refl w in
      (
        h,
        follow_step n x y _ f g h (next_of-run _ x f g run) rest
            ∙ ap (λ i. (ok tt, record x { clust = get_or cs i 0 }, h)) (omega arith),
        u,
      )
