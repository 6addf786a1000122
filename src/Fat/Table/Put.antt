-- ===== src/Fat/Table/Put.antt =====
-- put_fat of src/fs/fat.c on the allocation tables.
use beaner_os.Fat.Bytes.{Buf}
use beaner_os.Fat.State.{Fat, DiskOps, IsDevice, ok}
use beaner_os.Fat.Cache.View.{view, Coherent}
use beaner_os.Fat.Table.{merge, put_fat2, put_fat}
use beaner_os.Fat.Table.Entries.{
  IsLaidOut, IsTable, IsOutside, entry, Wrote, put_entry, put_fat2-Wrote, entry-Wrote_here,
  entry-Wrote_away,
}
use beaner_os.Base.{
  ◌==◌, if◌then◌else◌, ==_iff, ==-false_of_ne, ==-refl, refl, eq-cases, ℕ, ◌+◌, ◌/◌, ◌%◌, ◌^◌, ◌<◌,
  ◌≡◌, ◌∙◌, ◌≢◌, inl, inr, arith,
}

-- `new` is an entry of 32 bits that has the low 28 of `v` and the upper four of `old`.
pub record IsStored (old v new : ℕ) : Type 0 where
  pub low : new % 2 ^ 28 ≡ v % 2 ^ 28
  pub upper : new / 2 ^ 28 ≡ old / 2 ^ 28 % 16

merge-IsStored : (old v : ℕ) → IsStored old v (merge old v)
unfolding merge
merge-IsStored old v = record { low = omega arith; upper = omega arith }

pub IsStored-along : (old v new : ℕ) → new ≡ merge old v → IsStored old v new
IsStored-along old v new e = rw e (merge-IsStored old v)

module _ {D : Type 0} {ops : DiskOps D} {sector : D → ℕ → Buf} (dev : IsDevice ops sector) where
  -- The volume after `merge` of entry `c` and `v` in every table.
  pub record Merged (c v : ℕ) (f g : Fat D) : Type 0 where
    pub coherent : Coherent sector g
    pub geo : g.geo ≡ f.geo
    pub last_used : g.last_used ≡ f.last_used
    pub free_cnt : g.free_cnt ≡ f.free_cnt
    pub info_dirty : g.info_dirty ≡ f.info_dirty
    pub entries :
        (base c' : ℕ)
        → IsTable f.geo base
        → c' < f.geo.clust_cnt
        → entry sector g base c'
          ≡ (if c' == c then merge (entry sector f base c) v else entry sector f base c')
    pub outside : (t : ℕ) → t ≢ 0 → IsOutside f.geo t → view sector g t ≡ view sector f t

  -- Without mirroring only the first table is written.
  Merged-single :
      (c v : ℕ) (f g : Fat D)
      → f.geo.fat_sect1 ≡ 0
      → c < f.geo.clust_cnt
      → Coherent sector f
      → IsLaidOut f.geo
      → Wrote sector
          (f.geo.fat_sect0 + c / 128)
          (put_entry sector f (f.geo.fat_sect0 + c / 128) c v)
          f
          g
      → Merged c v f g
  Merged-single c v f g e lt coh lay w = record {
    coherent = w.coherent;
    geo = w.geo;
    last_used = w.last_used;
    free_cnt = w.free_cnt;
    info_dirty = w.info_dirty;
    entries = λ base c' is lt'.
        let q : base ≡ f.geo.fat_sect0 = omega arith in
        rw q (entry-Wrote_here dev f.geo.fat_sect0 c v c' f g lay.first coh w);
    outside =
        λ t nz out. w.same t nz ∙ rw (==-false_of_ne (f.geo.fat_sect0 + c / 128) t (omega arith));
  }

  -- With mirroring the second table is written first.
  Merged-mirror :
      (c v : ℕ) (f h g : Fat D)
      → f.geo.fat_sect1 ≢ 0
      → c < f.geo.clust_cnt
      → Coherent sector f
      → IsLaidOut f.geo
      → Wrote sector
          (f.geo.fat_sect1 + c / 128)
          (put_entry sector f (f.geo.fat_sect1 + c / 128) c v)
          f
          h
      → Wrote sector
          (f.geo.fat_sect0 + c / 128)
          (put_entry sector h (f.geo.fat_sect0 + c / 128) c v)
          h
          g
      → Merged c v f g
  Merged-mirror c v f h g ne lt coh lay w1 w0 = record {
    coherent = w0.coherent;
    geo = w0.geo ∙ w1.geo;
    last_used = w0.last_used ∙ w1.last_used;
    free_cnt = w0.free_cnt ∙ w1.free_cnt;
    info_dirty = w0.info_dirty ∙ w1.info_dirty;
    entries = λ base c' is lt'. elim is.1 [
      | inl q ↦
          let away = λ (d : ℕ) (p : d < f.geo.clust_cnt).
            entry-Wrote_away dev (f.geo.fat_sect1 + c / 128) f.geo.fat_sect0 d _ f h lay.first
              (omega arith) w1 in
          rw q (
            entry-Wrote_here dev f.geo.fat_sect0 c v c' h g lay.first w1.coherent w0
            ∙ rw (away c lt, away c' lt'))
      | inr q ↦ rw q (
          entry-Wrote_away dev (f.geo.fat_sect0 + c / 128) f.geo.fat_sect1 c' _ h g ne (omega arith)
            w0
          ∙ entry-Wrote_here dev f.geo.fat_sect1 c v c' f h ne coh w1)
    ];
    outside = λ t nz out.
        w0.same t nz
        ∙ rw (==-false_of_ne (f.geo.fat_sect0 + c / 128) t (omega arith))
            (w1.same t nz ∙ rw (==-false_of_ne (f.geo.fat_sect1 + c / 128) t (omega arith)));
  }

  put_fat-run_single :
      (c v : ℕ) (f g : Fat D)
      → f.geo.fat_sect1 ≡ 0
      → put_fat2 ops f.geo.fat_sect0 c v f ≡ (ok tt, g)
      → put_fat ops c v f ≡ (ok tt, g)
  unfolding put_fat
  put_fat-run_single c v f g e run = rw ((==_iff f.geo.fat_sect1 0).1 e) run

  put_fat-run_mirror :
      (c v : ℕ) (f h g : Fat D)
      → f.geo.fat_sect1 ≢ 0
      → put_fat2 ops f.geo.fat_sect1 c v f ≡ (ok tt, h)
      → put_fat2 ops h.geo.fat_sect0 c v h ≡ (ok tt, g)
      → put_fat ops c v f ≡ (ok tt, g)
  unfolding put_fat
  put_fat-run_mirror c v f h g ne run1 run0 = rw (==-false_of_ne f.geo.fat_sect1 0 ne, run1) run0

  pub put_fat-Merged :
      (c v : ℕ) (f : Fat D)
      → IsLaidOut f.geo
      → c < f.geo.clust_cnt
      → Coherent sector f
      → (g : Fat D) × (put_fat ops c v f ≡ (ok tt, g)) × Merged c v f g
  put_fat-Merged c v f lay lt coh = elim (eq-cases f.geo.fat_sect1 0) [
    | inl e ↦
        let (g, run, w) = put_fat2-Wrote dev f.geo.fat_sect0 c v f lay.first (omega arith) coh in
        (g, put_fat-run_single c v f g e run, Merged-single c v f g e lt coh lay w)
    | inr ne ↦
        let (h, run1, w1) = put_fat2-Wrote dev f.geo.fat_sect1 c v f ne (omega arith) coh in
        let (g, run0, w0) =
          put_fat2-Wrote dev f.geo.fat_sect0 c v h lay.first (omega arith) w1.coherent in
        (
          g,
          put_fat-run_mirror c v f h g ne run1 (rw w1.geo run0),
          Merged-mirror c v f h g ne lt coh lay w1 w0,
        )
  ]

  -- The volume after entry `c` of every table is set to `v`.
  pub record PutFat (c v : ℕ) (f g : Fat D) : Type 0 where
    pub coherent : Coherent sector g
    pub geo : g.geo ≡ f.geo
    pub last_used : g.last_used ≡ f.last_used
    pub free_cnt : g.free_cnt ≡ f.free_cnt
    pub info_dirty : g.info_dirty ≡ f.info_dirty
    pub put :
        (base : ℕ) → IsTable f.geo base → IsStored (entry sector f base c) v (entry sector g base c)
    pub kept :
        (base c' : ℕ)
        → IsTable f.geo base
        → c' < f.geo.clust_cnt
        → c' ≢ c
        → entry sector g base c' ≡ entry sector f base c'
    pub outside : (t : ℕ) → t ≢ 0 → IsOutside f.geo t → view sector g t ≡ view sector f t

  Merged-PutFat : (c v : ℕ) (f g : Fat D) → c < f.geo.clust_cnt → Merged c v f g → PutFat c v f g
  Merged-PutFat c v f g lt m = record {
    coherent = m.coherent;
    geo = m.geo;
    last_used = m.last_used;
    free_cnt = m.free_cnt;
    info_dirty = m.info_dirty;
    put = λ base is.
        IsStored-along (entry sector f base c) v (entry sector g base c)
          (m.entries base c is lt ∙ rw (==-refl c) refl);
    kept = λ base c' is lt' ne. m.entries base c' is lt' ∙ rw (==-false_of_ne c' c ne) refl;
    outside = m.outside;
  }

  -- On a working device with a coherent cache, where the tables lie apart, `put_fat` of a cluster
  -- of the volume succeeds: in each table that is in use it changes the low 28 bits of the
  -- cluster's entry to those of the value, keeps the upper four, and leaves every other entry and
  -- every sector outside the tables as it was, whatever the cache held.
  pub put_fat-PutFat :
      (c v : ℕ) (f : Fat D)
      → IsLaidOut f.geo
      → c < f.geo.clust_cnt
      → Coherent sector f
      → (g : Fat D) × (put_fat ops c v f ≡ (ok tt, g)) × PutFat c v f g
  put_fat-PutFat c v f lay lt coh =
      let (g, run, m) = put_fat-Merged c v f lay lt coh in (g, run, Merged-PutFat c v f g lt m)
