-- ===== src/Fat/Cache/View.antt =====
-- What a volume holds, cached sector included: against it the cache of src/fs/fat.c is measured.
use beaner_os.Base.{
  ℕ, ◌≡◌, ◌≢◌, refl, false, if◌then◌else◌, ◌==◌, arith, length, Bool-cases, inl, inr, ==_iff, ◌∙◌,
  sym, eq-cases, ==-false_of_ne,
}
use beaner_os.Fat.Bytes.{Buf}
use beaner_os.Fat.State.{Fat, DiskOps, IsDevice, ok}
use beaner_os.Fat.Cache.{sync_buf, update_buf}

module _ {D : Type 0} (sector : D → ℕ → Buf) where
  -- Sector `s` of the volume: the cached copy where there is one.
  abbrev pub view : Fat D → ℕ → Buf
  view f s = if f.sect == s then f.buf else sector f.disk s

  -- A clean buffer agrees with the disk. Sector 0 stands for "nothing cached yet": `fat_mount` sets
  -- `sect = 0` and fills no buffer.
  pub record Coherent (f : Fat D) : Type 0 where
    pub size : length f.buf ≡ 512
    pub clean : f.buf_dirty ≡ false → f.sect ≢ 0 → f.buf ≡ sector f.disk f.sect

  -- `g` holds what `f` holds, in every sector but 0, and differs at most in what is cached.
  pub record Keeps (f g : Fat D) : Type 0 where
    pub coherent : Coherent g
    pub geo : g.geo ≡ f.geo
    pub last_used : g.last_used ≡ f.last_used
    pub free_cnt : g.free_cnt ≡ f.free_cnt
    pub info_dirty : g.info_dirty ≡ f.info_dirty
    pub same : (t : ℕ) → t ≢ 0 → view g t ≡ view f t

  pub Keeps-refl : (f : Fat D) → Coherent f → Keeps f f
  Keeps-refl f c = record {
    coherent = c;
    geo = refl;
    last_used = refl;
    free_cnt = refl;
    info_dirty = refl;
    same = λ t h. refl;
  }

  pub Keeps-trans : (f g h : Fat D) → Keeps f g → Keeps g h → Keeps f h
  Keeps-trans f g h k l = record {
    coherent = l.coherent;
    geo = l.geo ∙ k.geo;
    last_used = l.last_used ∙ k.last_used;
    free_cnt = l.free_cnt ∙ k.free_cnt;
    info_dirty = l.info_dirty ∙ k.info_dirty;
    same = λ t p. l.same t p ∙ k.same t p;
  }

module _ {D : Type 0} {ops : DiskOps D} {sector : D → ℕ → Buf} (dev : IsDevice ops sector) where
  -- A written-back volume: clean, and the disk has what was cached.
  pub record Synced (f g : Fat D) : Type 0 where
    pub keeps : Keeps sector f g
    pub sect : g.sect ≡ f.sect
    pub buf : g.buf ≡ f.buf
    pub clean : g.buf_dirty ≡ false

  -- On a working device `sync_buf` succeeds, cleans the buffer and loses nothing.
  pub sync_buf-Synced :
      (f : Fat D) → Coherent sector f → (g : Fat D) × (sync_buf ops f ≡ (ok tt, g)) × Synced f g
  unfolding sync_buf
  sync_buf-Synced f c = elim (Bool-cases f.buf_dirty) [
    | inl dirty ↦ (
      record f { disk = (ops.write f.disk f.sect f.buf).1; buf_dirty = false },
      ground (arith, dev.write_ok f.disk f.sect f.buf),
      record {
        keeps = record {
          coherent = record {
            size = c.size;
            clean = λ _ _. sym (dev.write_self f.disk f.sect f.buf c.size);
          };
          geo = refl;
          last_used = refl;
          free_cnt = refl;
          info_dirty = refl;
          same = λ t _. ground (arith, dev.write_ne f.disk f.sect f.buf t);
        };
        sect = refl;
        buf = refl;
        clean = refl;
      },
    )
    | inr clean ↦ (
      f,
      rw clean,
      record { keeps = Keeps-refl sector f c; sect = refl; buf = refl; clean = clean },
    )
  ]

  -- The buffer holds sector `s`.
  pub record Loaded (s : ℕ) (f g : Fat D) : Type 0 where
    pub keeps : Keeps sector f g
    pub sect : g.sect ≡ s
    pub buf : g.buf ≡ view sector f s

  read_back :
      (s : ℕ) (f g : Fat D)
      → s ≢ 0
      → f.sect ≢ s
      → Synced f g
      → Loaded s f (record g {
        disk = (ops.read g.disk s g.buf).2;
        buf = (ops.read g.disk s g.buf).1;
        sect = s;
      })
  read_back s f g nz ne y = record {
    keeps = Keeps-trans sector f g _ y.keeps (record {
      coherent = record {
        size = rw (dev.read_buf g.disk s g.buf) (dev.size g.disk s);
        clean = λ _ _. dev.read_buf g.disk s g.buf ∙ sym (dev.read_same g.disk s g.buf s);
      };
      geo = refl;
      last_used = refl;
      free_cnt = refl;
      info_dirty = refl;
      same = λ t p. ground (
        arith,
        dev.read_buf g.disk s g.buf,
        dev.read_same g.disk s g.buf t,
        y.clean,
        y.sect,
        y.keeps.coherent.clean,
      );
    });
    sect = refl;
    buf = ground (arith, dev.read_buf g.disk s g.buf, y.sect, y.keeps.same s nz);
  }

  -- On a working device with a coherent cache `update_buf` brings in the sector that is asked for,
  -- if that is not sector 0, and what the volume holds, cached sector included, stays the same.
  pub update_buf-Loaded :
      (s : ℕ) (f : Fat D)
      → s ≢ 0
      → Coherent sector f
      → (g : Fat D) × (update_buf ops s f ≡ (ok tt, g)) × Loaded s f g
  unfolding update_buf
  update_buf-Loaded s f nz c = elim (eq-cases f.sect s) [
    | inl e ↦ (
      f,
      rw ((==_iff f.sect s).1 e),
      record { keeps = Keeps-refl sector f c; sect = e; buf = rw ((==_iff f.sect s).1 e) },
    )
    | inr ne ↦
        let (g, run, y) = sync_buf-Synced f c in
        (
          record g {
            disk = (ops.read g.disk s g.buf).2;
            buf = (ops.read g.disk s g.buf).1;
            sect = s;
          },
          rw (==-false_of_ne f.sect s ne, run, dev.read_ok g.disk s g.buf),
          read_back s f g nz ne y,
        )
  ]
