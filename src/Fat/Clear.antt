-- ===== src/Fat/Clear.antt =====
-- clust_clear of src/fs/fat.c.
use beaner_os.Fat.State.{DiskOps, M, pure, ◌>>=◌, ◌>>◌, get, modify, add32}
use beaner_os.Fat.Geo.{clust_to_sect}
use beaner_os.Fat.Cache.{sync_buf}
use beaner_os.Base.{ℕ, zero, suc, replicate, ◌^◌, true}

module _ {D : Type 0} (ops : DiskOps D) where
  -- The loop with `n` sectors left.
  unfoldable pub clear_loop : (n sect : ℕ) → M D (Unit {0})
  clear_loop zero sect = pure tt
  clear_loop (suc n) sect = do
    modify (λ f. record f { buf_dirty = true; sect = sect })
    sync_buf ops
    clear_loop n (add32 sect 1)

  unfoldable pub clust_clear : (clust : ℕ) → M D (Unit {0})
  clust_clear clust = do
    sync_buf ops
    f ← get
    modify (λ g. record g { buf = replicate 512 0 })
    clear_loop (2 ^ f.geo.clust_shift) (clust_to_sect f.geo clust)
