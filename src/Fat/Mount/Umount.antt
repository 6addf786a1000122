-- ===== src/Fat/Mount/Umount.antt =====
-- fat_umount of src/fs/fat.c.
use beaner_os.Fat.Mount.{Globals, Mounted, unlink_volume, fat_umount}
use beaner_os.Fat.Bytes.{Buf}
use beaner_os.Fat.State.{Fat, DiskOps, IsDevice, ok}
use beaner_os.Fat.Cache.{sync_fs}
use beaner_os.Fat.Cache.View.{Coherent}
use beaner_os.Fat.Cache.Sync.{Flushed, sync_fs-Flushed}
use beaner_os.Base.{ℕ, List, ==-false_of_ne, ==-refl, eq-cases, ◌≡◌, refl, ◌≢◌, inl, inr, some, ◌∷◌}

-- `left` is the list without its first volume at `fat`.
pub data Unlinked (fat : ℕ) : (mounts left : List Mounted) → Type 0 where
  here : (it : Mounted) (rest : List Mounted) → it.fat ≡ fat → Unlinked fat (it ∷ rest) rest
  there :
      (it : Mounted) (rest left : List Mounted)
      → it.fat ≢ fat
      → Unlinked fat rest left
      → Unlinked fat (it ∷ rest) (it ∷ left)

-- `fat` is the address of a listed volume.
pub data IsListed (fat : ℕ) : List Mounted → Type 0 where
  first : (it : Mounted) (rest : List Mounted) → it.fat ≡ fat → IsListed fat (it ∷ rest)
  later : (it : Mounted) (rest : List Mounted) → IsListed fat rest → IsListed fat (it ∷ rest)

unlink_volume-Unlinked :
    (fat : ℕ) (mounts : List Mounted)
    → IsListed fat mounts
    → (left : List Mounted) × (unlink_volume mounts fat ≡ some left) × Unlinked fat mounts left
unfolding unlink_volume
unlink_volume-Unlinked fat _ (first it rest e) = (rest, rw (e, ==-refl fat) refl, here it rest e)
unlink_volume-Unlinked fat _ (later it rest l) =
    let (left, run, u) = unlink_volume-Unlinked fat rest l in
    elim (eq-cases it.fat fat) [
      | inl e ↦ (rest, rw (e, ==-refl fat) refl, here it rest e)
      | inr ne ↦ (it ∷ left, rw (==-false_of_ne it.fat fat ne, run) refl, there it rest left ne u)
    ]

module _ {D : Type 0} {ops : DiskOps D} {sector : D → ℕ → Buf} (dev : IsDevice ops sector) where
  umount-run :
      (fat : ℕ) (x : Globals) (f g : Fat D) (left : List Mounted)
      → unlink_volume x.g_fat_list fat ≡ some left
      → sync_fs ops f ≡ (ok tt, g)
      → fat_umount ops fat x f ≡ (ok tt, record x { g_fat_list = left }, g)
  unfolding fat_umount
  umount-run fat x f g left run sync = cc

  -- On a working device with a coherent cache, where FsInfo is not in sector 0, `fat_umount` of a
  -- listed volume succeeds: the list loses its first entry for that volume and no other, and
  -- everything that was not yet written is on the disk.
  pub fat_umount-Flushed :
      (fat : ℕ) (x : Globals) (f : Fat D)
      → IsListed fat x.g_fat_list
      → f.geo.info_sect ≢ 0
      → Coherent sector f
      → (left : List Mounted) × (g : Fat D) × (fat_umount ops fat x f
          ≡ (ok tt, record x { g_fat_list = left }, g))
        × Unlinked fat x.g_fat_list left
        × Flushed dev f g
  fat_umount-Flushed fat x f listed nz coherent =
      let (left, run, u) = unlink_volume-Unlinked fat x.g_fat_list listed in
      let (g, sync, flushed) = sync_fs-Flushed dev f nz coherent in
      (left, g, umount-run fat x f g left run sync, u, flushed)
