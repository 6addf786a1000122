-- ===== src/Fat/Table/Still.antt =====
-- get_fat of src/fs/fat.c on a volume with nothing to write back.
use beaner_os.Fat.Bytes.{Buf}
use beaner_os.Fat.State.{Fat, DiskOps, IsDevice, ok, err, Res, M, and_then, add32}
use beaner_os.Fat.Cache.{sync_buf, update_buf}
use beaner_os.Fat.Cache.View.{view, Coherent, Keeps}
use beaner_os.Fat.Table.{classify, entry_result, get_fat, ClustFlags}
use beaner_os.Fat.Table.Entries.{IsLaidOut, entry}
use beaner_os.Fat.Table.Get.{get_fat-classify}
use beaner_os.Base.{ℕ, ◌≡◌, refl, sym, ◌∙◌, ◌≢◌, false, arith, ◌/◌, ◌%◌, ◌^◌, ◌<◌, ap}

module _ {D : Type 0} (sector : D → ℕ → Buf) where
  -- `g` is `f`, clean like it, but for the cached sector: also the disk holds the same.
  pub record Still (f g : Fat D) : Type 0 where
    pub keeps : Keeps sector f g
    pub clean : g.buf_dirty ≡ false
    pub disk : (t : ℕ) → t ≢ 0 → sector g.disk t ≡ sector f.disk t

  -- A clean volume shows what is on the disk.
  pub view-clean :
      (f : Fat D) (t : ℕ)
      → Coherent sector f
      → f.buf_dirty ≡ false
      → t ≢ 0
      → view sector f t ≡ sector f.disk t
  view-clean f t c clean nz = ground (arith, c.clean)

  pub Keeps-Still :
      (f g : Fat D)
      → Coherent sector f
      → f.buf_dirty ≡ false
      → g.buf_dirty ≡ false
      → Keeps sector f g
      → Still f g
  Keeps-Still f g c clean clean' k = record {
    keeps = k;
    clean = clean';
    disk =
        λ t nz. sym (view-clean g t k.coherent clean' nz) ∙ k.same t nz ∙ view-clean f t c clean nz;
  }

module _ {D : Type 0} (ops : DiskOps D) where
  update_buf-clean :
      (s : ℕ) (f : Fat D) → f.buf_dirty ≡ false → (update_buf ops s f).1.buf_dirty ≡ false
  unfolding update_buf sync_buf
  update_buf-clean s f clean = ground arith

  -- What comes behind `m` leaves the volume alone.
  and_then-volume :
      {A B : Type 0} (r : Res A × Fat D) (k : A → M D B)
      → ((a : A) (g : Fat D) → (k a g).1 ≡ g)
      → (and_then r k).1 ≡ r.1
  and_then-volume (ok a, g) k same = same a g
  and_then-volume (err e, g) k same = refl

  get_fat-clean : (c : ℕ) (f : Fat D) → f.buf_dirty ≡ false → (get_fat ops c f).1.buf_dirty ≡ false
  unfolding get_fat
  get_fat-clean c f clean =
      ap (λ (g : Fat D). g.buf_dirty)
        (and_then-volume (update_buf ops (add32 f.geo.fat_sect0 (c / 128)) f) _ (λ a g. refl))
      ∙ update_buf-clean (add32 f.geo.fat_sect0 (c / 128)) f clean

module _ {D : Type 0} {ops : DiskOps D} {sector : D → ℕ → Buf} (dev : IsDevice ops sector) where
  -- On a volume with nothing to write back, `get_fat` only changes what is cached.
  pub get_fat-Still :
      (c : ℕ) (f : Fat D)
      → IsLaidOut f.geo
      → c < f.geo.clust_cnt
      → Coherent sector f
      → f.buf_dirty ≡ false
      → (g : Fat D) × (get_fat ops c f ≡ (
        entry_result
            (entry sector f f.geo.fat_sect0 c % 2 ^ 28)
            (classify f.geo.clust_cnt (entry sector f f.geo.fat_sect0 c % 2 ^ 28)),
        g,
      ))
        × Still sector f g
  get_fat-Still c f lay lt coh clean =
      let (g, run, k) = get_fat-classify dev c f lay lt coh in
      let clean' : g.buf_dirty ≡ false =
        sym (ap (λ (r : Res (ℕ × ClustFlags) × Fat D). r.1.buf_dirty) run)
        ∙ get_fat-clean ops c f clean in
      (g, run, Keeps-Still sector f g coh clean clean' k)
