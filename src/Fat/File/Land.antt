-- ===== src/Fat/File/Land.antt =====
-- fat_file_seek of src/fs/fat.c on an open file with a chain of clusters.
use beaner_os.Fat.Bytes.{Buf}
use beaner_os.Fat.State.{Fat, DiskOps, IsDevice, Geometry, ok, add32}
use beaner_os.Fat.Geo.{clust_to_sect}
use beaner_os.Fat.Table.Entries.{IsLaidOut}
use beaner_os.Fat.Chain.{Junk}
use beaner_os.Fat.Chain.Scan.{IsCluster}
use beaner_os.Fat.Chain.Links.{Chain}
use beaner_os.Fat.File.{File, no_sect, read_sect, follow, load_sect, rewind, seek_in}
use beaner_os.Fat.File.Follow.{follow-run}
use beaner_os.Fat.File.Position.{
  IsAtRest, IsSized, table_in, clust_idx, cluster_at, sector_at, seek_sect, seek_idx, nth-IsCluster,
  nth_of, sector_at-bound,
}
use beaner_os.Base.{
  ltb, lt→ltb, ==_iff, ==-false_of_ne, eq-cases, length, ℕ, ◌-◌, ◌*◌, ◌/◌, ◌%◌, ◌^◌, ◌≤◌, ◌<◌,
  bit_and, ◌≡◌, refl, sym, ap, ◌∙◌, ◌≢◌, ◌⊎◌, inl, inr, true, false, List, arith, get_or, lt-cases,
}

-- The file is open, has nothing to write, and stands in its chain `cs` of clusters; its buffer
-- holds the sector that it names, if it names one.
pub record IsOpen (geo : Geometry) (content : ℕ → Buf) (cs : List ℕ) (x : File) : Type 0 where
  pub opened : x.opened ≡ true
  pub clean : x.dirty ≡ false
  pub starts : x.sclust ≢ 0
  pub sized : x.size ≢ 0
  pub chain : Chain (table_in geo content) geo.clust_cnt x.sclust cs
  pub two : 2 ≤ x.sclust
  pub inside : clust_idx geo x.offset < length cs
  pub clust : x.clust ≡ cluster_at geo cs x.offset
  pub buf : (x.sect ≡ no_sect) ⊎ (x.buf ≡ content x.sect)

-- The file at byte `off`, with the sector of that byte in its buffer.
abbrev pub landed : Geometry → (content : ℕ → Buf) → (cs : List ℕ) (off : ℕ) → File → File
landed geo content cs off x = record x {
  clust = cluster_at geo cs off;
  sect = sector_at geo cs off;
  offset = off;
  buf = content (sector_at geo cs off);
}

module _ {D : Type 0} {ops : DiskOps D} {sector : D → ℕ → Buf} (dev : IsDevice ops sector)
    (junk : Junk) (geo : Geometry) (content : ℕ → Buf) where
  read_sect-run :
      (x : File) (f : Fat D)
      → x.sect ≢ 0
      → IsAtRest sector geo content f
      → (g : Fat D) × (read_sect ops junk x f ≡ (ok tt, record x { buf = content x.sect }, g))
        × IsAtRest sector geo content g
  unfolding read_sect
  read_sect-run x f nz v = (
    record f { disk = (ops.read f.disk x.sect x.buf).2 },
    rw (dev.read_ok f.disk x.sect x.buf, dev.read_buf f.disk x.sect x.buf, v.disk x.sect nz) refl,
    record {
      coherent = record {
        size = v.coherent.size;
        clean = λ c p. v.coherent.clean c p ∙ sym (dev.read_same f.disk x.sect x.buf f.sect);
      };
      clean = v.clean;
      geo_is = v.geo_is;
      disk = λ t p. dev.read_same f.disk x.sect x.buf t ∙ v.disk t p;
    },
  )

  load_far :
      (ssect : ℕ) (x : File) (f : Fat D)
      → x.sect ≢ ssect
      → x.dirty ≡ false
      → load_sect ops junk ssect x f ≡ read_sect ops junk x f
  unfolding load_sect
  load_far ssect x f ne clean = simp (==-false_of_ne x.sect ssect ne, clean) refl

  load_sect-run :
      (ssect : ℕ) (x : File) (f : Fat D)
      → x.dirty ≡ false
      → (x.sect ≡ ssect → x.buf ≡ content x.sect)
      → x.sect ≢ 0
      → IsAtRest sector geo content f
      → (g : Fat D) × (load_sect ops junk ssect x f ≡ (ok tt, record x { buf = content x.sect }, g))
        × IsAtRest sector geo content g
  unfolding load_sect
  load_sect-run ssect x f clean same nz v = elim (eq-cases x.sect ssect) [
    | inl e ↦
        (f, rw ((==_iff x.sect ssect).1 e) (ap (λ b. (ok tt, record x { buf = b }, f)) (same e)), v)
    | inr ne ↦ let (g, run, w) = read_sect-run x f nz v in (g, load_far ssect x f ne clean ∙ run, w)
  ]

  rewind-run :
      (dst src : ℕ) (x : File) (f : Fat D)
      → dst < src
      → rewind ops junk dst src x f
        ≡ (ok 0, record x { clust = x.sclust; sect = clust_to_sect f.geo x.sclust; offset = 0 }, f)
  unfolding rewind
  rewind-run dst src x f lt = rw (lt→ltb dst src lt) refl

  stay-run :
      (dst src : ℕ) (x : File) (f : Fat D)
      → src ≤ dst
      → rewind ops junk dst src x f ≡ (ok src, x, f)
  unfolding rewind
  stay-run dst src x f le = let not_below : ltb dst src ≡ false = ground arith in rw not_below refl

  seek_in-steps :
      (off dst from src : ℕ) (x y w z : File) (f g h : Fat D)
      → off / (512 * 2 ^ f.geo.clust_shift % 2 ^ 32) ≡ dst
      → x.offset / (512 * 2 ^ f.geo.clust_shift % 2 ^ 32) ≡ from
      → rewind ops junk dst from x f ≡ (ok src, y, f)
      → follow ops junk (dst - src) y f ≡ (ok tt, w, g)
      → load_sect ops junk x.sect
          (record w {
            sect = add32 (clust_to_sect g.geo w.clust) (bit_and (off / 512) g.geo.clust_msk);
            offset = off;
          })
          g
        ≡ (ok tt, z, h)
      → seek_in ops junk off x f ≡ (ok tt, z, h)
  unfolding seek_in
  seek_in-steps off dst from src x y w z f g h e e' back along load =
      rw (e, e', back, along, load) refl

  -- `rewind` takes the file to a cluster at or before the target, `src` places into the chain.
  rewind-before :
      (dst : ℕ) (cs : List ℕ) (x : File) (f : Fat D)
      → IsOpen geo content cs x
      → dst < length cs
      → (src c s o : ℕ) × (rewind ops junk dst (clust_idx geo x.offset) x f
          ≡ (ok src, record x { clust = c; sect = s; offset = o }, f))
        × (src ≤ dst)
        × (c ≡ get_or cs src 0)
  rewind-before dst cs x f v lt = elim (lt-cases dst (clust_idx geo x.offset)) [
    | inl back ↦ (
      0,
      x.sclust,
      clust_to_sect f.geo x.sclust,
      0,
      rewind-run dst (clust_idx geo x.offset) x f back,
      omega arith,
      sym (nth_of v.chain),
    )
    | inr on ↦ (
      clust_idx geo x.offset,
      x.clust,
      x.sect,
      x.offset,
      stay-run dst (clust_idx geo x.offset) x f on,
      on,
      v.clust,
    )
  ]

module _ {D : Type 0} {ops : DiskOps D} {sector : D → ℕ → Buf} (dev : IsDevice ops sector)
    (junk : Junk) (geo : Geometry) (content : ℕ → Buf) (lay : IsLaidOut geo) (z : IsSized geo) where
  pub seek_in-run :
      (off : ℕ) (cs : List ℕ) (x : File) (f : Fat D)
      → IsOpen geo content cs x
      → clust_idx geo off < length cs
      → IsAtRest sector geo content f
      → (g : Fat D) × (seek_in ops junk off x f ≡ (ok tt, landed geo content cs off x, g))
        × IsAtRest sector geo content g
  seek_in-run off cs x f v lt rest =
      let dst = clust_idx geo off in
      let (src, c, s, o, back, le, at) = rewind-before dev junk geo content dst cs x f v lt in
      let y = record x { clust = c; sect = s; offset = o } in
      let (g, along, still) =
        follow-run dev junk geo content lay (dst - src) src y f v.chain v.two (omega arith) at
          rest in
      let is : IsCluster geo (cluster_at geo cs off) = nth-IsCluster dst v.chain v.two lt in
      let bound = sector_at-bound geo cs off z is in
      let w = record y { clust = cluster_at geo cs off } in
      let (h, load, end) =
        load_sect-run dev junk geo content x.sect
          (record w { sect = sector_at geo cs off; offset = off }) g v.clean
          (λ e. elim v.buf [
            | inl none_yet ↦ absurd (omega (arith, bound.1, e, none_yet))
            | inr held ↦ held ∙ ap content (sym e)
          ])
          bound.0 still in
      (
        h,
        seek_in-steps dev junk geo content off dst (clust_idx geo x.offset) src x y w _ f g h
            (ap (λ (o : Geometry). off / (512 * 2 ^ o.clust_shift % 2 ^ 32)) rest.geo_is
              ∙ seek_idx geo off z)
            (ap (λ (o : Geometry). x.offset / (512 * 2 ^ o.clust_shift % 2 ^ 32)) rest.geo_is
              ∙ seek_idx geo x.offset z)
            back
            (along ∙ ap (λ k. (ok tt, record y { clust = get_or cs k 0 }, g)) (omega (arith, le)))
            (ap (λ t. load_sect ops junk x.sect (record w { sect = t; offset = off }) g)
                (ap
                    (λ (o : Geometry).
                      add32 (clust_to_sect o w.clust) (bit_and (off / 512) o.clust_msk))
                    still.geo_is
                  ∙ seek_sect geo (cluster_at geo cs off) off z is)
              ∙ load),
        end,
      )
