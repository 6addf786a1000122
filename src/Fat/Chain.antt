-- ===== src/Fat/Chain.antt =====
-- Cluster chains of src/fs/fat.c: remove_chain, stretch_chain and create_chain. The two loops run on
-- fuel, one round more than the volume has clusters.
use beaner_os.Fat.State.{
  Fat, broken, full, raw_flags, stuck, DiskOps, Res, ok, err, M, pure, throw, ◌>>=◌, ◌>>◌, get,
  modify, add32, sub32,
}
use beaner_os.Fat.Cache.{sync_fs}
use beaner_os.Fat.Table.{
  ClustFlags, free, used, last, bad, is_free, is_last, is_broken, get_fat, put_fat,
}
pub mod Links
pub mod Remove
pub mod Free
pub mod Scan
pub mod Find
pub mod Stretch
pub mod Grow
use beaner_os.Base.{leb, ◌==◌, if◌then◌else◌, ℕ, zero, suc, ◌+◌, true, false, Bool, not}

-- Values of locals that C leaves uninitialised, where the code may use them.
pub record Junk : Type 0 where
  pub flags : ℕ
  pub clust : ℕ

-- The bits CLUST_FREE, CLUST_USED, CLUST_USED | CLUST_LAST, CLUST_BAD.
abbrev pub flag_bits : ClustFlags → ℕ
flag_bits free = 1
flag_bits used = 2
flag_bits last = 6
flag_bits bad = 8

-- `if (++clust >= fat->clust_cnt) clust = 2;`
unfoldable pub next_clust : (cnt clust : ℕ) → ℕ
next_clust cnt clust = if leb cnt (add32 clust 1) then 2 else add32 clust 1

abbrev pub eoc : ℕ
eoc = 0x0fff_ffff

-- `return flags;` of 0 is FAT_ERR_NONE, with `*out_clust` never written.
abbrev pub as_code : {D : Type 0} → Junk → Res ℕ × Fat D → Res ℕ × Fat D
as_code junk (err (raw_flags zero), f) = (ok junk.clust, f)
as_code junk (r, f) = (r, f)

module _ {D : Type 0} (ops : DiskOps D) where
  abbrev pub set_info_dirty : Fat D → Fat D
  set_info_dirty f = record f { info_dirty = true }

  abbrev pub count_free : Fat D → Fat D
  count_free f = record f { free_cnt = add32 f.free_cnt 1 }

  unfoldable pub remove_loop : (fuel clust : ℕ) → M D (Unit {0})
  remove_loop zero clust = throw stuck
  remove_loop (suc k) clust = do
    (next, fl) ← get_fat ops clust
    if is_broken fl then throw broken else (do
      put_fat ops clust 0
      modify count_free
      elim (is_last fl) [ true ↦ pure tt | false ↦ remove_loop k next ])

  unfoldable pub remove_chain : ℕ → M D (Unit {0})
  remove_chain clust = do
    modify set_info_dirty
    f ← get
    remove_loop (f.geo.clust_cnt + 1) clust
    sync_fs ops

  -- The search behind `last_used`. `fl` is what the local `flags` holds.
  unfoldable pub scan : (fuel clust fl : ℕ) → M D ℕ
  scan zero clust fl f = (err stuck, f)
  scan (suc k) clust fl f =
      let c = next_clust f.geo.clust_cnt clust in
      let (r, g) = get_fat ops c f in
      let found : Res ℕ × Fat D = elim r [
        | ok (val, cf) ↦ elim (is_free cf) [ true ↦ (ok c, g) | false ↦ scan k c (flag_bits cf) g ]
        | err e ↦ (err (raw_flags fl), g)
      ] in
      if c == f.last_used then (err full, f) else found

  -- The cluster behind `prev` where it is free: whether to scan, that cluster, `flags`.
  unfoldable pub try_next : Junk → (prev : ℕ) → M D (Bool × ℕ × ℕ)
  try_next junk prev = if prev == 0 then pure (true, prev, junk.flags) else (do
    f ← get
    let c = next_clust f.geo.clust_cnt prev
    (next, fl) ← get_fat ops c
    pure (not (is_free fl), c, flag_bits fl))

  unfoldable pub find_free : Junk → (prev : ℕ) → M D ℕ
  find_free junk prev = do
    (do_scan, c, fl) ← try_next junk prev
    f ← get
    if do_scan then scan (f.geo.clust_cnt + 1) f.last_used fl else pure c

  -- `clust` becomes the end of the chain, and `prev` links to it.
  unfoldable pub link_free : (prev clust : ℕ) → M D (Unit {0})
  link_free prev clust = do
    put_fat ops clust eoc
    if prev == 0 then pure tt else put_fat ops prev clust
    modify (λ f. record f { last_used = clust; free_cnt = sub32 f.free_cnt 1 })

  unfoldable pub stretch_chain : Junk → (prev : ℕ) → M D ℕ
  stretch_chain junk prev f =
      as_code junk (
        (do modify set_info_dirty; c ← find_free junk prev; link_free prev c; sync_fs ops; pure c)
          f)

  unfoldable pub create_chain : Junk → M D ℕ
  create_chain junk = stretch_chain junk 0
