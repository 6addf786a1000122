-- ===== src/Fat/Chain/Grow.antt =====
-- stretch_chain of src/fs/fat.c as a whole.
use beaner_os.Fat.Bytes.{Buf}
use beaner_os.Fat.State.{Fat, full, DiskOps, IsDevice, Geometry, Res, ok, err, sub32}
use beaner_os.Fat.Cache.{sync_fs}
use beaner_os.Fat.Cache.View.{view, Coherent, Keeps}
use beaner_os.Fat.Cache.Sync.{Flushed, sync_fs-Flushed, disk-Flushed}
use beaner_os.Fat.Chain.{Junk, find_free, link_free, stretch_chain, set_info_dirty}
use beaner_os.Fat.Chain.Remove.{
  table_of, entry-Keeps, IsTable-along, cnt_along, IsOutside-along, laid_along,
}
use beaner_os.Fat.Chain.Free.{
  disk_entry, IsMounted, info_apart, disk_entry-view, entry-Flushed, info_sector,
  entry-set_info_dirty,
}
use beaner_os.Fat.Chain.Scan.{IsCluster, IsValidTable, Passes}
use beaner_os.Fat.Chain.Find.{find_free-Found}
use beaner_os.Fat.Chain.Stretch.{
  linked, linked-IsEnd, linked-IsStored, linked-kept, Linked, Stretched, link_free-Linked,
}
use beaner_os.Fat.Table.Entries.{IsTable, entry}
use beaner_os.Base.{ℕ, ◌%◌, ◌^◌, ◌<◌, ◌≡◌, refl, sym, ap, ◌∙◌, ◌≢◌, ◌⊎◌, inl, inr, arith}

module _ {D : Type 0} {ops : DiskOps D} {sector : D → ℕ → Buf} (dev : IsDevice ops sector)
    (junk : Junk) where
  run_ok :
      (prev c : ℕ) (f g h z : Fat D)
      → find_free ops junk prev (set_info_dirty ops f) ≡ (ok c, g)
      → link_free ops prev c g ≡ (ok tt, h)
      → sync_fs ops h ≡ (ok tt, z)
      → stretch_chain ops junk prev f ≡ (ok c, z)
  unfolding stretch_chain
  run_ok prev c f g h z find link sync = rw (find, link, sync)

  run_full :
      (prev : ℕ) (f g : Fat D)
      → find_free ops junk prev (set_info_dirty ops f) ≡ (err full, g)
      → stretch_chain ops junk prev f ≡ (err full, g)
  unfolding stretch_chain
  run_full prev f g find = rw find

  -- The three stages together.
  Stretched-parts :
      (prev c : ℕ) (f g h z : Fat D)
      → IsMounted f.geo
      → Keeps sector (set_info_dirty ops f) g
      → Linked sector prev c g h
      → Flushed dev h z
      → prev ≢ c
      → c < f.geo.clust_cnt
      → prev < f.geo.clust_cnt
      → Stretched sector prev c f z
  Stretched-parts prev c f g h z m k n l ne c_in prev_in =
      let geo_eq : h.geo ≡ f.geo = n.geo ∙ k.geo in
      let info_eq : h.geo.info_sect ≡ f.geo.info_sect = ap (λ (x : Geometry). x.info_sect) geo_eq in
      let entries : (base x : ℕ)
          → IsTable f.geo base
          → x < f.geo.clust_cnt
          → disk_entry sector z base x ≡ linked prev c x (entry sector f base x) =
        λ base x is lt.
          disk_entry-view dev h z base x is.0 l
          ∙ entry-Flushed dev h z base x is.0
              (λ e. info_apart dev f.geo base x m is lt (e ∙ info_eq)) l
          ∙ n.entries base x (IsTable-along base g f k.geo is) (cnt_along x g f k.geo lt)
          ∙ ap (linked prev c x) (
              entry-Keeps sector base x (set_info_dirty ops f) g is.0 k
              ∙ entry-set_info_dirty dev f base x) in
      record {
        coherent = l.coherent;
        geo = l.geo ∙ geo_eq;
        clean = l.buf_clean;
        info_clean = l.info_clean;
        last_used = l.last_used ∙ n.last_used;
        free_cnt = l.free_cnt ∙ n.free_cnt ∙ ap (λ (v : ℕ). sub32 v 1) k.free_cnt;
        ended = λ base is. linked-IsEnd prev c _ _ ne (entries base c is c_in);
        linked_to = λ base is nz. linked-IsStored prev c _ _ nz (entries base prev is prev_in);
        kept = λ base x is lt away apart.
            entries base x is lt ∙ linked-kept prev c x (entry sector f base x) away apart;
        outside = λ t nz ni out.
            disk-Flushed dev h z t l nz
            ∙ l.same t nz (λ e. ni (e ∙ info_eq))
            ∙ n.outside t nz (IsOutside-along t g f k.geo out)
            ∙ k.same t nz;
        info =
            disk-Flushed dev h z f.geo.info_sect l m.info
            ∙ info_sector (view sector f) (view sector h) (view sector z) info_eq (sym l.last_used)
                (n.outside f.geo.info_sect m.info
                    (IsOutside-along f.geo.info_sect g f k.geo m.info_out)
                  ∙ k.same f.geo.info_sect m.info)
                (l.info (n.info_dirty ∙ k.info_dirty)) l.free_cnt;
      }

  -- What stretch_chain gives: a free cluster `c`, taken and linked, or FAT_ERR_FULL.
  abbrev pub Outcome : (prev : ℕ) (f g : Fat D) → Type 0
  Outcome prev f g =
      ((c : ℕ) × (stretch_chain ops junk prev f ≡ (ok c, g))
        × IsCluster f.geo c
        × (table_of sector f c ≡ 0)
        × Stretched sector prev c f g)
      ⊎ ((stretch_chain ops junk prev f ≡ (err full, g))
          × ((x : ℕ) → IsCluster f.geo x → x ≢ f.last_used → table_of sector f x ≢ 0)
          × Keeps sector (set_info_dirty ops f) g)

  start-Passes :
      (f : Fat D) (m : IsMounted f.geo) (valid : IsValidTable f.geo (table_of sector f))
      (small : f.geo.clust_cnt < 2 ^ 32) (u_in : IsCluster f.geo f.last_used)
      → Coherent sector f
      → Passes dev f.geo
          (table_of sector f)
          f.last_used
          m.laid
          valid
          small
          u_in
          (set_info_dirty ops f)
  start-Passes f m valid small u_in coh = record {
    coherent = record { size = coh.size; clean = coh.clean };
    geo_is = refl;
    used_is = refl;
    table_is = λ x. ap (λ (v : ℕ). v % 2 ^ 28) (entry-set_info_dirty dev f f.geo.fat_sect0 x);
  }

  taken_ne :
      (prev c : ℕ) (f : Fat D)
      → (prev ≡ 0) ⊎ (IsCluster f.geo prev × (table_of sector f prev ≢ 0))
      → IsCluster f.geo c
      → table_of sector f c ≡ 0
      → prev ≢ c
  taken_ne prev c f (inl e) is z q = omega arith
  taken_ne prev c f (inr (isp, nz)) is z q = nz (ap (table_of sector f) q ∙ z)

  -- Let the device work, the cache be coherent, the tables and FsInfo lie apart behind sector 0,
  -- the volume have fewer than 2 ^ 32 clusters, every data cluster have an entry that `get_fat`
  -- accepts, `last_used` be a data cluster, and `prev` be 0 or a data cluster that is not free.
  -- Then `stretch_chain` returns: either a cluster that was free, whose entry now ends a chain
  -- (0x0ffffff8 or more in its low 28 bits), to which `prev`, if not 0, links by its low 28 bits,
  -- with the upper four of both and every other entry as before, `last_used` and `free_cnt`
  -- following, and all of it on the disk; or FAT_ERR_FULL, and then no data cluster but
  -- `last_used` was free and no sector has changed.
  pub stretch_chain-Outcome :
      (prev : ℕ) (f : Fat D)
      → IsMounted f.geo
      → Coherent sector f
      → IsValidTable f.geo (table_of sector f)
      → f.geo.clust_cnt < 2 ^ 32
      → IsCluster f.geo f.last_used
      → (prev ≡ 0) ⊎ (IsCluster f.geo prev × (table_of sector f prev ≢ 0))
      → (g : Fat D) × Outcome prev f g
  stretch_chain-Outcome prev f m coh valid small u_in from =
      let (r, g, find, k, found) =
        find_free-Found dev junk f.geo (table_of sector f) f.last_used m.laid valid small u_in prev
          (set_info_dirty ops f) (plain from) (start-Passes f m valid small u_in coh) in
      elim found [
        | inl (c, e, is, z) ↦
            let ne = taken_ne prev c f from is z in
            let (h, link, n) =
              link_free-Linked dev prev c g (laid_along g f k.geo m.laid) k.coherent
                (cnt_along c g f k.geo is.1) (cnt_along prev g f k.geo (below_cnt from u_in)) ne in
            let (y, sync, l) =
              sync_fs-Flushed dev h
                (λ q. m.info (sym (ap (λ (x : Geometry). x.info_sect) (n.geo ∙ k.geo)) ∙ q))
                n.coherent in
            (
              y,
              inl (
                c,
                run_ok prev c f g h y (find ∙ ap (λ (r : Res ℕ). (r, g)) e) link sync,
                is,
                z,
                Stretched-parts prev c f g h y m k n l ne is.1 (below_cnt from u_in),
              ),
            )
        | inr (e, none_free) ↦
            (g, inr (run_full prev f g (find ∙ ap (λ (r : Res ℕ). (r, g)) e), none_free, k))
      ]
    where
      plain :
          (prev ≡ 0) ⊎ (IsCluster f.geo prev × (table_of sector f prev ≢ 0))
          → (prev ≡ 0) ⊎ IsCluster f.geo prev
      plain (inl e) = inl e
      plain (inr (is, nz)) = inr is

      below_cnt :
          (prev ≡ 0) ⊎ (IsCluster f.geo prev × (table_of sector f prev ≢ 0))
          → IsCluster f.geo f.last_used
          → prev < f.geo.clust_cnt
      below_cnt (inl e) u = omega arith
      below_cnt (inr (is, nz)) u = is.1
