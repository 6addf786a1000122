-- ===== src/Fat/File/Read.antt =====
-- fat_file_read of src/fs/fat.c: the bytes that it gives, across sectors and clusters.
use beaner_os.Fat.Bytes.{Buf}
use beaner_os.Fat.State.{Fat, DiskOps, IsDevice, Geometry, Res, ok, err}
use beaner_os.Fat.Table.Entries.{IsLaidOut}
use beaner_os.Fat.Chain.{Junk}
use beaner_os.Fat.File.{File, Got, curr, add_read, file_seek, read_loop, file_read}
use beaner_os.Fat.File.Land.{IsOpen, landed}
use beaner_os.Fat.File.Landed.{IsLanded, forwards, landed_self, file_seek-landed, landed-IsOpen}
use beaner_os.Fat.File.Position.{
  IsAtRest, IsSized, clust_idx, sector_at, nth-IsCluster, sector_at-bound,
}
use beaner_os.Base.{
  length, take, drop, ℕ, zero, suc, ◌+◌, ◌-◌, ◌%◌, ◌^◌, ◌≤◌, ◌<◌, ◌≡◌, refl, sym, ap, ◌∙◌, List, [],
  ◌++◌, arith, ltb, leb, min, true, false, ◌&&◌, pos,
}
use beaner_os.Fat.File.Slice.{bytes_from, slice_sector, bytes_from-append, idx_below}

module _ {D : Type 0} {ops : DiskOps D} {sector : D → ℕ → Buf} (dev : IsDevice ops sector)
    (junk : Junk) (geo : Geometry) (content : ℕ → Buf) (lay : IsLaidOut geo) (z : IsSized geo) where
  -- What one round copies.
  abbrev chunk : (len : ℕ) → File → ℕ
  chunk len x = min len (min (512 - x.offset % 512) (x.size - x.offset))

  read_step :
      (k len : ℕ) (x y : File) (f g : Fat D)
      → file_seek ops junk (pos (chunk len x)) curr x f ≡ (ok tt, y, g)
      → (ltb 0 len && ltb x.offset x.size) ≡ true
      → leb (2 ^ 31) (x.size - x.offset) ≡ false
      → read_loop ops junk (suc k) len x f
        ≡ add_read
            (take (chunk len x) (drop (x.offset % 512) x.buf))
            (read_loop ops junk k (len - chunk len x) y g)
  unfolding read_loop
  read_step k len x y f g seek more small = rw (more, small) (ap round seek)
    where
      bytes : List ℕ
      bytes = take (chunk len x) (drop (x.offset % 512) x.buf)

      round : Res (Unit {0}) × File × Fat D → Got D
      round r = elim r.0 [
        | ok _ ↦ add_read bytes (read_loop ops junk k (len - chunk len x) r.1 r.2)
        | err e ↦ ((bytes, err e), r.1, r.2)
      ]

  read_stop : (k : ℕ) (x : File) (f : Fat D) → read_loop ops junk k 0 x f ≡ (([], ok tt), x, f)
  unfolding read_loop
  read_stop zero x f = refl
  read_stop (suc k) x f = refl

  -- The bytes of one round and those of the rounds behind it.
  join :
      (cs : List ℕ) (c len off : ℕ) (x : File) (g : Fat D)
      → c ≤ len
      → c ≤ 512 - off % 512
      → length (content (sector_at geo cs off)) ≡ 512
      → add_read (take c (drop (off % 512) (content (sector_at geo cs off)))) (
        (bytes_from geo content cs (off + c) (len - c), ok tt),
        landed geo content cs (off + c + (len - c)) x,
        g,
      )
        ≡ ((bytes_from geo content cs off len, ok tt), landed geo content cs (off + len) x, g)
  join cs c len off x g le in_sector size =
      ap (λ vs. ((vs, ok tt), landed geo content cs (off + c + (len - c)) x, g))
        (ap (λ vs. vs ++ bytes_from geo content cs (off + c) (len - c))
            (slice_sector geo content cs c off in_sector size)
          ∙ bytes_from-append geo content cs c (len - c) off
          ∙ ap (bytes_from geo content cs off) whole)
      ∙ ap (λ o. ((bytes_from geo content cs off len, ok tt), landed geo content cs o x, g)) there
    where
      whole : c + (len - c) ≡ len
      whole = omega arith

      there : off + c + (len - c) ≡ off + len
      there = omega arith

  read_loop-bytes :
      (k len off : ℕ) (cs : List ℕ) (x : File) (f : Fat D)
      → IsOpen geo content cs x
      → len ≤ k
      → off + len ≤ x.size
      → x.size < 2 ^ 31
      → clust_idx geo (off + len) < length cs
      → IsAtRest sector geo content f
      → (g : Fat D) × (read_loop ops junk k len (landed geo content cs off x) f
          ≡ ((bytes_from geo content cs off len, ok tt), landed geo content cs (off + len) x, g))
        × IsAtRest sector geo content g
  read_loop-bytes k zero off cs x f v fuel fits small lt rest = (
    f,
    read_stop k (landed geo content cs off x) f
        ∙ ap (λ o. (([], ok tt), landed geo content cs o x, f)) (omega arith),
    rest,
  )
  read_loop-bytes zero (suc len) off cs x f v fuel fits small lt rest = absurd (omega arith)
  read_loop-bytes (suc k) (suc len) off cs x f v fuel fits small lt rest =
      let at = landed geo content cs off x in
      let c = chunk (suc len) at in
      let here = idx_below geo content cs off (off + suc len) (omega arith) lt in
      let (lo, hi) = nth-IsCluster (clust_idx geo off) v.chain v.two here in
      let (nz, _) = sector_at-bound geo cs off z (lo, hi) in
      let size = ap length (sym (rest.disk (sector_at geo cs off) nz)) ∙ dev.size f.disk _ in
      let (g, seek, rest') =
        file_seek-landed dev junk geo content lay z (pos c) curr (off + c) cs at f
          (landed-IsOpen dev junk geo content lay z off cs x v here)
          (forwards c (off + c) refl (omega arith))
          (idx_below geo content cs (off + c) (off + suc len) (omega arith) lt) rest in
      let (h, run, rest'') =
        read_loop-bytes k (suc len - c) (off + c) cs x g v (omega arith) (omega arith) small
          (idx_below geo content cs (off + c + (suc len - c)) (off + suc len) (omega arith) lt)
          rest' in
      (
        h,
        read_step k (suc len) at _ f g seek (ground arith) (ground arith)
            ∙ ap (add_read (take c (drop (off % 512) (content (sector_at geo cs off))))) run
            ∙ join cs c (suc len) off x h (omega arith) (omega arith) size,
        rest'',
      )

  access : File → File
  access x = record x { accessed = true }

  file_read_open :
      (len : ℕ) (x : File) (f : Fat D)
      → x.opened ≡ true
      → x.can_read ≡ true
      → file_read ops junk len x f ≡ read_loop ops junk len len (access x) f
  unfolding file_read access
  file_read_open len x f opened can = simp (opened, can) refl

  -- On a working device, let the volume have nothing to write back, its tables lie apart, its
  -- clusters lie in sectors below 2 ^ 32 - 1; let the file be open for reading, smaller than 2 ^
  -- 31 bytes, and stand where a seek has put it. `fat_file_read` of bytes up to the end of the
  -- file at most, with the position behind them still in the chain of clusters, then gives just
  -- the bytes that the sectors of the chain hold there, across the bounds of sectors and clusters,
  -- and leaves the file behind them; the disk is as before.
  pub file_read-bytes :
      (len : ℕ) (cs : List ℕ) (x : File) (f : Fat D)
      → IsLanded geo content cs x
      → x.can_read ≡ true
      → x.offset + len ≤ x.size
      → x.size < 2 ^ 31
      → clust_idx geo (x.offset + len) < length cs
      → IsAtRest sector geo content f
      → (g : Fat D) × (file_read ops junk len x f ≡ (
        (bytes_from geo content cs x.offset len, ok tt),
        landed geo content cs (x.offset + len) (record x { accessed = true }),
        g,
      ))
        × IsAtRest sector geo content g
  unfolding access
  file_read-bytes len cs x f v can fits small lt rest =
      let o = v.is_open in
      let y = record x { accessed = true } in
      let w : IsOpen geo content cs y = record {
        opened = o.opened;
        clean = o.clean;
        starts = o.starts;
        sized = o.sized;
        chain = o.chain;
        two = o.two;
        inside = o.inside;
        clust = o.clust;
        buf = o.buf;
      } in
      let (g, run, end) =
        read_loop-bytes len len x.offset cs y f w (omega arith) fits small lt rest in
      (
        g,
        file_read_open len x f o.opened can
            ∙ ap (λ x'. read_loop ops junk len len (access x') f) (landed_self geo content cs x v)
            ∙ run,
        end,
      )
