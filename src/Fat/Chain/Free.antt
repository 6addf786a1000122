-- ===== src/Fat/Chain/Free.antt =====
-- remove_chain of src/fs/fat.c as a whole.
use beaner_os.Fat.Bytes.{Buf, put32, get32}
use beaner_os.Fat.State.{Fat, DiskOps, IsDevice, Geometry, ok}
use beaner_os.Fat.Cache.{sync_fs}
use beaner_os.Fat.Cache.View.{view, Coherent}
use beaner_os.Fat.Cache.Sync.{Flushed, sync_fs-Flushed, disk-Flushed}
use beaner_os.Fat.Table.{merge, item}
use beaner_os.Fat.Table.Put.{IsStored, IsStored-along}
use beaner_os.Fat.Table.Entries.{IsLaidOut, IsTable, IsOutside, entry}
use beaner_os.Fat.Chain.{remove_loop, remove_chain, set_info_dirty}
use beaner_os.Fat.Chain.Links.{has, frame, Chain, has-lt, Chain-Distinct, length-Distinct}
use beaner_os.Fat.Chain.Remove.{table_of, Removed, remove_loop-Removed}
use beaner_os.Base.{
  if◌then◌else◌, length, ℕ, ◌+◌, ◌/◌, ◌%◌, ◌^◌, ◌<◌, ◌≡◌, refl, sym, ap, ◌∙◌, ◌≢◌, false, true,
  List, arith,
}

-- FsInfo lies behind sector 0 and outside the tables.
pub record IsMounted (geo : Geometry) : Type 0 where
  pub laid : IsLaidOut geo
  pub info : geo.info_sect ≢ 0
  pub info_out : IsOutside geo geo.info_sect

module _ {D : Type 0} (sector : D → ℕ → Buf) where
  -- The entry of cluster `c` as it stands on the disk.
  abbrev pub disk_entry : Fat D → (base c : ℕ) → ℕ
  disk_entry f base c = get32 (sector f.disk (base + c / 128)) (item c)

  -- `g` is `f` with the chain `cs` freed, everything written back.
  pub record ChainFreed (cs : List ℕ) (f g : Fat D) : Type 0 where
    pub coherent : Coherent sector g
    pub geo : g.geo ≡ f.geo
    pub clean : g.buf_dirty ≡ false
    pub info_clean : g.info_dirty ≡ false
    pub free_cnt : g.free_cnt ≡ (f.free_cnt + length cs) % 2 ^ 32
    pub freed :
        (base c : ℕ)
        → IsTable f.geo base
        → c < f.geo.clust_cnt
        → has c cs ≡ true
        → IsStored (entry sector f base c) 0 (disk_entry g base c)
    pub kept :
        (base c : ℕ)
        → IsTable f.geo base
        → c < f.geo.clust_cnt
        → has c cs ≡ false
        → disk_entry g base c ≡ entry sector f base c
    pub outside :
        (t : ℕ)
        → t ≢ 0
        → t ≢ f.geo.info_sect
        → IsOutside f.geo t
        → sector g.disk t ≡ view sector f t
    pub info :
        sector g.disk f.geo.info_sect
        ≡ put32 (put32 (view sector f f.geo.info_sect) 492 f.last_used) 488 g.free_cnt

pub info_sector :
    (vf vg vh : ℕ → Buf) {s s' u u' n n' : ℕ}
    → s ≡ s'
    → u ≡ u'
    → vg s' ≡ vf s'
    → vh s ≡ put32 (put32 (vg s) 492 u) 488 n
    → n' ≡ n
    → vh s' ≡ put32 (put32 (vf s') 492 u') 488 n'
info_sector vf vg vh p q r w z = cc

module _ {D : Type 0} {ops : DiskOps D} {sector : D → ℕ → Buf} (dev : IsDevice ops sector) where
  -- A table sector is not FsInfo.
  pub info_apart :
      (geo : Geometry) (base c : ℕ)
      → IsMounted geo
      → IsTable geo base
      → c < geo.clust_cnt
      → base + c / 128 ≢ geo.info_sect
  info_apart geo base c m is lt e = omega (arith, m.info_out, is)

  pub disk_entry-view :
      (f g : Fat D) (base c : ℕ)
      → base ≢ 0
      → Flushed dev f g
      → disk_entry sector g base c ≡ entry sector g base c
  unfolding entry
  disk_entry-view f g base c nz l =
      ap (λ b. get32 b (item c)) (disk-Flushed dev f g (base + c / 128) l (omega arith))

  pub entry-Flushed :
      (f g : Fat D) (base c : ℕ)
      → base ≢ 0
      → base + c / 128 ≢ f.geo.info_sect
      → Flushed dev f g
      → entry sector g base c ≡ entry sector f base c
  unfolding entry
  entry-Flushed f g base c nz ne l =
      ap (λ b. get32 b (item c)) (l.same (base + c / 128) (omega arith) ne)

  remove_chain-run :
      (c : ℕ) (f g h : Fat D)
      → remove_loop ops (f.geo.clust_cnt + 1) c (set_info_dirty ops f) ≡ (ok tt, g)
      → sync_fs ops g ≡ (ok tt, h)
      → remove_chain ops c f ≡ (ok tt, h)
  unfolding remove_chain
  remove_chain-run c f g h loop sync = rw (loop, sync)

  pub entry-set_info_dirty :
      (f : Fat D) (base c : ℕ) → entry sector (set_info_dirty ops f) base c ≡ entry sector f base c
  unfolding entry
  entry-set_info_dirty f base c = refl

  freed_parts :
      (cs : List ℕ) (f g h : Fat D)
      → IsMounted f.geo
      → Removed sector cs (set_info_dirty ops f) g
      → Flushed dev g h
      → ChainFreed sector cs f h
  freed_parts cs f g h m r l =
      let info_eq : g.geo.info_sect ≡ f.geo.info_sect = ap (λ (x : Geometry). x.info_sect) r.geo in
      let entries : (base c : ℕ)
          → IsTable f.geo base
          → c < f.geo.clust_cnt
          → disk_entry sector h base c
            ≡ (if has c cs then merge (entry sector f base c) 0 else entry sector f base c) =
        λ base c is lt.
          disk_entry-view g h base c is.0 l
          ∙ entry-Flushed g h base c is.0 (λ e. info_apart f.geo base c m is lt (e ∙ info_eq)) l
          ∙ r.entries base c is lt
          ∙ rw entry-set_info_dirty in
      record {
        coherent = l.coherent;
        geo = l.geo ∙ r.geo;
        clean = l.buf_clean;
        info_clean = l.info_clean;
        free_cnt = l.free_cnt ∙ r.free_cnt;
        freed = λ base c is lt i.
            IsStored-along (entry sector f base c) 0 (disk_entry sector h base c)
              (entries base c is lt ∙ rw i refl);
        kept = λ base c is lt i. entries base c is lt ∙ rw i refl;
        outside = λ t nz ni out.
            disk-Flushed dev g h t l nz ∙ l.same t nz (λ e. ni (e ∙ info_eq)) ∙ r.outside t nz out;
        info =
            disk-Flushed dev g h f.geo.info_sect l m.info
            ∙ info_sector (view sector f) (view sector g) (view sector h) info_eq r.last_used
                (r.outside f.geo.info_sect m.info m.info_out) (l.info r.info_dirty) l.free_cnt;
      }

  -- Let the device work, the cache be coherent, and the tables and FsInfo lie apart behind sector
  -- 0. `remove_chain` on the first cluster of a chain then returns, with no error: in every table
  -- the low 28 bits of the entries of the chain are 0, their upper four and every other entry are
  -- as before, `free_cnt` grows by their number modulo 2 ^ 32, nothing stays dirty, so that all of
  -- it is on the disk, FsInfo included, and no other sector outside the tables changes.
  pub remove_chain-frees :
      (c : ℕ) (cs : List ℕ) (f : Fat D)
      → IsMounted f.geo
      → Coherent sector f
      → Chain (table_of sector f) f.geo.clust_cnt c cs
      → (g : Fat D) × (remove_chain ops c f ≡ (ok tt, g)) × ChainFreed sector cs f g
  remove_chain-frees c cs f m coh s =
      let few = length-Distinct f.geo.clust_cnt cs (Chain-Distinct s) (λ x i. has-lt x s i) in
      let (g, loop, r) =
        remove_loop-Removed dev (f.geo.clust_cnt + 1) c cs (set_info_dirty ops f) m.laid
          (record { size = coh.size; clean = coh.clean }) (frame_dirty s) (omega arith) in
      let (h, sync, l) =
        sync_fs-Flushed dev g (λ e. m.info (sym (ap (λ (x : Geometry). x.info_sect) r.geo) ∙ e))
          r.coherent in
      (h, remove_chain-run c f g h loop sync, freed_parts cs f g h m r l)
    where
      frame_dirty :
          Chain (table_of sector f) f.geo.clust_cnt c cs
          → Chain (table_of sector (set_info_dirty ops f)) f.geo.clust_cnt c cs
      frame_dirty s =
          frame (table_of sector f) (table_of sector (set_info_dirty ops f)) s
            (λ x lt i. ap (λ v. v % 2 ^ 28) (entry-set_info_dirty f f.geo.fat_sect0 x))
