-- ===== src/Fat/Table/Get.antt =====
-- get_fat of src/fs/fat.c reads the first table.
use beaner_os.Fat.Bytes.{Buf, get32}
use beaner_os.Fat.State.{Fat, DiskOps, IsDevice, Geometry, Res, ok, err, broken, add32}
use beaner_os.Fat.Cache.{update_buf}
use beaner_os.Fat.Cache.View.{view, Coherent, Keeps, Loaded, update_buf-Loaded}
use beaner_os.Fat.Table.{item, ClustFlags, free, used, last, bad, get_fat, classify, entry_result}
use beaner_os.Fat.Table.Entries.{IsLaidOut, entry}
use beaner_os.Base.{
  ℕ, ◌+◌, ◌/◌, ◌%◌, ◌^◌, ◌<◌, ◌≡◌, ap, ◌∙◌, ◌≢◌, ◌≤◌, ◌⊎◌, inl, inr, leb, ltb, ◌&&◌, ◌==◌,
  Bool-cases, arith,
}

-- What `get_fat` has to say of `v`, the low 28 bits of an entry, in a volume that numbers its
-- clusters below `cnt`.
pub data Answer (cnt v : ℕ) : Res (ℕ × ClustFlags) → Type 0 where
  unused : v ≡ 0 → Answer cnt v (ok (v, free))
  unusable : v ≡ 0x0fff_fff7 → Answer cnt v (ok (v, bad))
  ending : 0x0fff_fff8 ≤ v → Answer cnt v (ok (v, last))
  linking : 2 ≤ v → v < cnt → v < 0x0fff_fff7 → Answer cnt v (ok (v, used))
  invalid : v ≢ 0 → v < 0x0fff_fff7 → (v < 2) ⊎ (cnt ≤ v) → Answer cnt v (err broken)

classify-Answer : (cnt v : ℕ) → Answer cnt v (entry_result v (classify cnt v))
unfolding classify
classify-Answer cnt v = elim (Bool-cases (v == 0)) [
  | inl z ↦ rw z (unused (ground arith))
  | inr nz ↦ elim (Bool-cases (v == 0x0fff_fff7)) [
    | inl e ↦ rw (nz, e) (unusable (ground arith))
    | inr ne ↦ elim (Bool-cases (leb 0x0fff_fff8 v)) [
      | inl hi ↦ rw (nz, ne, hi) (ending (ground arith))
      | inr lo ↦ elim (Bool-cases (leb 2 v && ltb v cnt)) [
        | inl in_ ↦ rw (nz, ne, lo, in_) (linking (ground arith) (ground arith) (ground arith))
        | inr out ↦ rw (nz, ne, lo, out) (invalid (ground arith) (ground arith) (ground arith))
      ]
    ]
  ]
]

module _ {D : Type 0} {ops : DiskOps D} {sector : D → ℕ → Buf} (dev : IsDevice ops sector) where
  get_fat-run :
      (c s : ℕ) (f g : Fat D)
      → add32 f.geo.fat_sect0 (c / 128) ≡ s
      → update_buf ops s f ≡ (ok tt, g)
      → get_fat ops c f ≡ (
        entry_result
            (get32 g.buf (item c) % 2 ^ 28)
            (classify g.geo.clust_cnt (get32 g.buf (item c) % 2 ^ 28)),
        g,
      )
  unfolding get_fat
  get_fat-run c s f g e run = rw (e, run)

  -- The result for a buffer and a count of clusters.
  abbrev result : (c : ℕ) (g : Fat D) → Buf → ℕ → Res (ℕ × ClustFlags) × Fat D
  result c g b cnt =
      (entry_result (get32 b (item c) % 2 ^ 28) (classify cnt (get32 b (item c) % 2 ^ 28)), g)

  get_fat-Loaded :
      (c : ℕ) (f g : Fat D)
      → f.geo.fat_sect0 + c / 128 < 2 ^ 32
      → update_buf ops (f.geo.fat_sect0 + c / 128) f ≡ (ok tt, g)
      → Loaded dev (f.geo.fat_sect0 + c / 128) f g
      → get_fat ops c f ≡ result c g (view sector f (f.geo.fat_sect0 + c / 128)) f.geo.clust_cnt
  get_fat-Loaded c f g fits run l =
      get_fat-run c (f.geo.fat_sect0 + c / 128) f g (omega arith) run
      ∙ ap (λ b. result c g b g.geo.clust_cnt) l.buf
      ∙ ap (λ geo. result c g (view sector f (f.geo.fat_sect0 + c / 128)) (clust_cnt geo))
          l.keeps.geo
    where
      clust_cnt : Geometry → ℕ
      clust_cnt geo = geo.clust_cnt

  pub get_fat-classify :
      (c : ℕ) (f : Fat D)
      → IsLaidOut f.geo
      → c < f.geo.clust_cnt
      → Coherent sector f
      → (g : Fat D) × (get_fat ops c f ≡ (
        entry_result
            (entry sector f f.geo.fat_sect0 c % 2 ^ 28)
            (classify f.geo.clust_cnt (entry sector f f.geo.fat_sect0 c % 2 ^ 28)),
        g,
      ))
        × Keeps sector f g
  unfolding entry
  get_fat-classify c f lay lt coh =
      let nz : f.geo.fat_sect0 + c / 128 ≢ 0 = omega arith in
      let (g, run, l) = update_buf-Loaded dev (f.geo.fat_sect0 + c / 128) f nz coh in
      (g, get_fat-Loaded c f g (omega arith) run l, l.keeps)

  -- On a working device with a coherent cache, where the tables lie apart, `get_fat` of a cluster
  -- of the volume looks at the low 28 bits of the entry in the first table: it gives them as free
  -- for 0, as bad for 0x0ffffff7, as the last of a chain from 0x0ffffff8 on, and as used where
  -- they are the number of a cluster from 2 on, and FAT_ERR_BROKEN otherwise; it changes nothing
  -- but what is cached.
  pub get_fat-entry :
      (c : ℕ) (f : Fat D)
      → IsLaidOut f.geo
      → c < f.geo.clust_cnt
      → Coherent sector f
      → (r : Res (ℕ × ClustFlags)) × (g : Fat D) × (get_fat ops c f ≡ (r, g))
        × Answer f.geo.clust_cnt (entry sector f f.geo.fat_sect0 c % 2 ^ 28) r
        × Keeps sector f g
  get_fat-entry c f lay lt coh =
      let (g, run, k) = get_fat-classify c f lay lt coh in
      (_, g, run, classify-Answer f.geo.clust_cnt _, k)
