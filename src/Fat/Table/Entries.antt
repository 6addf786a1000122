-- ===== src/Fat/Table/Entries.antt =====
-- What get_fat and put_fat of src/fs/fat.c do to the entries of the allocation tables.
use beaner_os.Fat.Bytes.{Buf, get32, put32, length-put32, get32-put32, get32-put32_ne}
use beaner_os.Fat.State.{Fat, DiskOps, IsDevice, Geometry, ok, add32}
use beaner_os.Fat.Cache.View.{view, Coherent, update_buf-Loaded, Loaded}
use beaner_os.Fat.Table.{item, merge, put_fat2, update_buf}
use beaner_os.Base.{
  ◌==◌, if◌then◌else◌, ℕ, ◌+◌, ◌/◌, ◌^◌, ◌≤◌, ◌<◌, ◌≡◌, ◌≢◌, ◌⊎◌, true, arith, ◌∙◌, ==-false_of_ne,
  ==-refl, eq-cases, length, sym, ap, inl, inr,
}

-- The sectors of one allocation table.
abbrev pub table_sects : Geometry → ℕ
table_sects geo = (geo.clust_cnt + 127) / 128

-- The tables lie behind sector 0, below 2 ^ 32, and apart. `fat_sect1` is 0 without mirroring.
pub record IsLaidOut (geo : Geometry) : Type 0 where
  pub first : geo.fat_sect0 ≢ 0
  pub fits0 : geo.fat_sect0 + table_sects geo ≤ 2 ^ 32
  pub fits1 : geo.fat_sect1 + table_sects geo ≤ 2 ^ 32
  pub apart :
      (geo.fat_sect1 ≡ 0)
      ⊎ (geo.fat_sect0 + table_sects geo ≤ geo.fat_sect1)
      ⊎ (geo.fat_sect1 + table_sects geo ≤ geo.fat_sect0)

-- `base` is where a table that is in use begins.
abbrev pub IsTable : Geometry → ℕ → Type 0
IsTable geo base = (base ≢ 0) × ((base ≡ geo.fat_sect0) ⊎ (base ≡ geo.fat_sect1))

-- Sector `t` belongs to no table.
abbrev pub IsOutside : Geometry → ℕ → Type 0
IsOutside geo t =
    ((t < geo.fat_sect0) ⊎ (geo.fat_sect0 + table_sects geo ≤ t))
    × ((geo.fat_sect1 ≡ 0) ⊎ (t < geo.fat_sect1) ⊎ (geo.fat_sect1 + table_sects geo ≤ t))

module _ {D : Type 0} (sector : D → ℕ → Buf) where
  -- The 32-bit entry of cluster `c` in the table at `base`, cached sector included.
  unfoldable pub entry : Fat D → (base c : ℕ) → ℕ
  entry f base c = get32 (view sector f (base + c / 128)) (item c)

  -- `g` is `f` with `b` in sector `s`.
  pub record Wrote (s : ℕ) (b : Buf) (f g : Fat D) : Type 0 where
    pub coherent : Coherent sector g
    pub geo : g.geo ≡ f.geo
    pub last_used : g.last_used ≡ f.last_used
    pub free_cnt : g.free_cnt ≡ f.free_cnt
    pub info_dirty : g.info_dirty ≡ f.info_dirty
    pub same : (t : ℕ) → t ≢ 0 → view sector g t ≡ (if s == t then b else view sector f t)

  -- What becomes of sector `s` when entry `c` of it is set to `v`.
  abbrev pub put_entry : Fat D → (s c v : ℕ) → Buf
  put_entry f s c v = put32 (view sector f s) (item c) (merge (get32 (view sector f s) (item c)) v)

merge-lt : (old v : ℕ) → merge old v < 2 ^ 32
unfolding merge
merge-lt old v = omega arith

-- Entries of one sector.
get32-put32_same :
    (b : Buf) (c c' v : ℕ)
    → length b ≡ 512
    → c / 128 ≡ c' / 128
    → get32 (put32 b (item c) (merge (get32 b (item c)) v)) (item c')
      ≡ (if c' == c then merge (get32 b (item c)) v else get32 b (item c'))
get32-put32_same b c c' v size e = elim (eq-cases c' c) [
  | inl p ↦
      rw (p, ==-refl c) (get32-put32 b (item c) _ (omega arith) (merge-lt (get32 b (item c)) v))
  | inr p ↦ rw (==-false_of_ne c' c p) (get32-put32_ne b (item c) (item c') _ (omega arith))
]

module _ {D : Type 0} {ops : DiskOps D} {sector : D → ℕ → Buf} (dev : IsDevice ops sector) where
  -- What put_fat2 does once the sector is loaded.
  abbrev put_item : (c v : ℕ) → Fat D → Fat D
  put_item c v g = record g {
    buf = put32 g.buf (item c) (merge (get32 g.buf (item c)) v);
    buf_dirty = true;
  }

  put_fat2-run :
      (base c v s : ℕ) (f g : Fat D)
      → add32 base (c / 128) ≡ s
      → update_buf ops s f ≡ (ok tt, g)
      → put_fat2 ops base c v f ≡ (ok tt, put_item c v g)
  unfolding put_fat2
  put_fat2-run base c v s f g e run = rw (e, run)

  put_item-Wrote :
      (s c v : ℕ) (f g : Fat D)
      → s ≢ 0
      → Loaded dev s f g
      → Wrote sector s (put_entry sector f s c v) f (put_item c v g)
  put_item-Wrote s c v f g nz l = record {
    coherent = record {
      size = length-put32 g.buf (item c) _ ∙ l.keeps.coherent.size;
      clean = λ e. cc;
    };
    geo = l.keeps.geo;
    last_used = l.keeps.last_used;
    free_cnt = l.keeps.free_cnt;
    info_dirty = l.keeps.info_dirty;
    same = λ t p. ground (arith, l.sect, l.buf, l.keeps.same t p);
  }

  pub put_fat2-Wrote :
      (base c v : ℕ) (f : Fat D)
      → base ≢ 0
      → base + c / 128 < 2 ^ 32
      → Coherent sector f
      → (g : Fat D) × (put_fat2 ops base c v f ≡ (ok tt, g))
        × Wrote sector (base + c / 128) (put_entry sector f (base + c / 128) c v) f g
  put_fat2-Wrote base c v f nz fits coh =
      let s_nz : base + c / 128 ≢ 0 = omega arith in
      let (g, run, l) = update_buf-Loaded dev (base + c / 128) f s_nz coh in
      (
        put_item c v g,
        put_fat2-run base c v (base + c / 128) f g (omega arith) run,
        put_item-Wrote (base + c / 128) c v f g s_nz l,
      )

  pub view-size : (f : Fat D) (s : ℕ) → Coherent sector f → length (view sector f s) ≡ 512
  view-size f s coh = ground (arith, dev.size f.disk s, coh.size)

  pub entry-Wrote_here :
      (base c v c' : ℕ) (f g : Fat D)
      → base ≢ 0
      → Coherent sector f
      → Wrote sector (base + c / 128) (put_entry sector f (base + c / 128) c v) f g
      → entry sector g base c'
        ≡ (if c' == c then merge (entry sector f base c) v else entry sector f base c')
  unfolding entry
  entry-Wrote_here base c v c' f g nz coh w =
      ap (λ b. get32 b (item c')) (w.same (base + c' / 128) (omega arith))
      ∙ elim (eq-cases (c / 128) (c' / 128)) [
        | inl e ↦
            rw (e, ==-refl (base + c' / 128))
              (get32-put32_same _ c c' v (view-size f (base + c' / 128) coh) e)
        | inr ne ↦ rw (
          ==-false_of_ne (base + c / 128) (base + c' / 128) (omega arith),
          ==-false_of_ne c' c (omega arith),
        )
      ]

  pub entry-Wrote_away :
      (s base c : ℕ) (b : Buf) (f g : Fat D)
      → base ≢ 0
      → base + c / 128 ≢ s
      → Wrote sector s b f g
      → entry sector g base c ≡ entry sector f base c
  unfolding entry
  entry-Wrote_away s base c b f g nz ne w =
      ap (λ x. get32 x (item c))
        (rw (
          w.same (base + c / 128) (omega arith),
          ==-false_of_ne s (base + c / 128) (λ e. ne (sym e)),
        ))
