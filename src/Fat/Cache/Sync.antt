-- ===== src/Fat/Cache/Sync.antt =====
-- sync_fs of src/fs/fat.c against what is cached.
use beaner_os.Fat.Bytes.{Buf, put32, length-put32}
use beaner_os.Fat.State.{Fat, DiskOps, IsDevice, ok, Geometry}
use beaner_os.Fat.Cache.{sync_buf, update_buf, put_info, sync_info, sync_fs}
use beaner_os.Fat.Cache.View.{view, Coherent, Synced, Loaded, sync_buf-Synced, update_buf-Loaded}
use beaner_os.Base.{ℕ, ◌≡◌, ◌∙◌, ◌≢◌, true, false, arith, Bool-cases, refl, sym, ap, inl, inr}

module _ {D : Type 0} {ops : DiskOps D} {sector : D → ℕ → Buf} (dev : IsDevice ops sector) where
  -- `g` is `f` written back: nothing is dirty, and only the FsInfo sector may differ. Where the
  -- counts were dirty that sector has them.
  pub record Flushed (f g : Fat D) : Type 0 where
    pub coherent : Coherent sector g
    pub geo : g.geo ≡ f.geo
    pub last_used : g.last_used ≡ f.last_used
    pub free_cnt : g.free_cnt ≡ f.free_cnt
    pub buf_clean : g.buf_dirty ≡ false
    pub info_clean : g.info_dirty ≡ false
    pub same : (t : ℕ) → t ≢ 0 → t ≢ f.geo.info_sect → view sector g t ≡ view sector f t
    pub info :
        f.info_dirty ≡ true
        → view sector g f.geo.info_sect
          ≡ put32 (put32 (view sector f f.geo.info_sect) 492 f.last_used) 488 f.free_cnt

  -- A clean volume: the disk has every sector of the view but 0.
  pub disk-Flushed : (f g : Fat D) (t : ℕ) → Flushed f g → t ≢ 0 → sector g.disk t ≡ view sector g t
  disk-Flushed f g t l nz = ground (arith, l.coherent.clean l.buf_clean)

  info_done : Fat D → Fat D
  info_done g = record g { info_dirty = false }

  sync_info-run :
      (f g h : Fat D)
      → update_buf ops f.geo.info_sect f ≡ (ok tt, g)
      → sync_buf ops (put_info ops g) ≡ (ok tt, h)
      → sync_info ops f ≡ (ok tt, info_done h)
  unfolding sync_info info_done
  sync_info-run f g h load sync = rw (load, sync)

  put_info-Coherent : (g : Fat D) → Coherent sector g → Coherent sector (put_info ops g)
  put_info-Coherent g c = record {
    size =
        length-put32 (put32 g.buf 492 g.last_used) 488 g.free_cnt
        ∙ length-put32 g.buf 492 g.last_used
        ∙ c.size;
    clean = λ e. cc;
  }

  abbrev info_of : Geometry → ℕ
  info_of geo = geo.info_sect

  away :
      (g : Fat D) (i t : ℕ) → g.sect ≡ i → t ≢ i → view sector (put_info ops g) t ≡ view sector g t
  away g i t e ne = ground arith

  here :
      (g : Fat D) (i : ℕ)
      → g.sect ≡ i
      → view sector (put_info ops g) i ≡ put32 (put32 g.buf 492 g.last_used) 488 g.free_cnt
  here g i e = ground arith

  written :
      (g : Fat D) (b : Buf)
      → g.buf ≡ b
      → (u n : ℕ) → g.last_used ≡ u
      → g.free_cnt ≡ n
      → put32 (put32 g.buf 492 g.last_used) 488 g.free_cnt ≡ put32 (put32 b 492 u) 488 n
  written g b p u n q r = cc

  info_done-Flushed :
      (e f g h : Fat D)
      → f.geo.info_sect ≢ 0
      → Synced dev e f
      → Loaded dev f.geo.info_sect f g
      → Synced dev (put_info ops g) h
      → Flushed e (info_done h)
  unfolding info_done
  info_done-Flushed e f g h nz y l z = record {
    coherent = record { size = z.keeps.coherent.size; clean = z.keeps.coherent.clean };
    geo = z.keeps.geo ∙ l.keeps.geo ∙ y.keeps.geo;
    last_used = z.keeps.last_used ∙ l.keeps.last_used ∙ y.keeps.last_used;
    free_cnt = z.keeps.free_cnt ∙ l.keeps.free_cnt ∙ y.keeps.free_cnt;
    buf_clean = z.clean;
    info_clean = refl;
    same = λ t p q.
        let q' : t ≢ f.geo.info_sect = λ r. q (r ∙ ap info_of y.keeps.geo) in
        z.keeps.same t p ∙ away g f.geo.info_sect t l.sect q' ∙ l.keeps.same t p ∙ y.keeps.same t p;
    info = λ _.
        let i : f.geo.info_sect ≡ e.geo.info_sect = ap info_of y.keeps.geo in
        rw (← i) (
          z.keeps.same f.geo.info_sect nz
          ∙ here g f.geo.info_sect l.sect
          ∙ written g (view sector e f.geo.info_sect) (l.buf ∙ y.keeps.same f.geo.info_sect nz)
              e.last_used e.free_cnt (l.keeps.last_used ∙ y.keeps.last_used)
              (l.keeps.free_cnt ∙ y.keeps.free_cnt));
  }

  sync_fs-run_dirty :
      (e f g : Fat D)
      → sync_buf ops e ≡ (ok tt, f)
      → f.info_dirty ≡ true
      → sync_info ops f ≡ (ok tt, g)
      → sync_fs ops e ≡ (ok tt, g)
  unfolding sync_fs
  sync_fs-run_dirty e f g sync dirty run = rw sync (simp dirty run)

  sync_fs-run_clean :
      (e f : Fat D)
      → sync_buf ops e ≡ (ok tt, f)
      → f.info_dirty ≡ false
      → sync_fs ops e ≡ (ok tt, f)
  unfolding sync_fs
  sync_fs-run_clean e f sync clean = rw sync (simp clean)

  clean-Flushed : (e f : Fat D) → Synced dev e f → f.info_dirty ≡ false → Flushed e f
  clean-Flushed e f y clean = record {
    coherent = y.keeps.coherent;
    geo = y.keeps.geo;
    last_used = y.keeps.last_used;
    free_cnt = y.keeps.free_cnt;
    buf_clean = y.clean;
    info_clean = clean;
    same = λ t p _. y.keeps.same t p;
    info = λ dirty. cc (y.keeps.info_dirty);
  }

  -- On a working device with a coherent cache, where FsInfo is not in sector 0, `sync_fs` succeeds
  -- and leaves nothing dirty; no sector but FsInfo changes, and where the counts were dirty FsInfo
  -- gets `last_used` and `free_cnt`.
  pub sync_fs-Flushed :
      (e : Fat D)
      → e.geo.info_sect ≢ 0
      → Coherent sector e
      → (g : Fat D) × (sync_fs ops e ≡ (ok tt, g)) × Flushed e g
  sync_fs-Flushed e nz coh =
      let (f, sync, y) = sync_buf-Synced dev e coh in
      let nz' : f.geo.info_sect ≢ 0 = λ r. nz (sym (ap info_of y.keeps.geo) ∙ r) in
      elim (Bool-cases f.info_dirty) [
        | inl dirty ↦
            let (g, load, l) = update_buf-Loaded dev f.geo.info_sect f nz' y.keeps.coherent in
            let (h, wrote, z) =
              sync_buf-Synced dev (put_info ops g) (put_info-Coherent g l.keeps.coherent) in
            (
              info_done h,
              sync_fs-run_dirty e f (info_done h) sync dirty (sync_info-run f g h load wrote),
              info_done-Flushed e f g h nz' y l z,
            )
        | inr clean ↦ (f, sync_fs-run_clean e f sync clean, clean-Flushed e f y clean)
      ]
