-- ===== src/Fat/File/Landed.antt =====
-- fat_file_seek of src/fs/fat.c: the error codes, and where an open file comes to stand.
use beaner_os.Fat.Bytes.{Buf}
use beaner_os.Fat.State.{Fat, DiskOps, IsDevice, Geometry, ok}
use beaner_os.Fat.Table.Entries.{IsLaidOut}
use beaner_os.Fat.Chain.{Junk}
use beaner_os.Fat.File.{Seek, start, curr, end, File, move_to, seek_base, seek_in, file_seek}
use beaner_os.Fat.File.Land.{IsOpen, landed, seek_in-run}
use beaner_os.Fat.File.Position.{IsAtRest, IsSized, clust_idx, sector_at, cluster_at}
use beaner_os.Base.{
  ==-false_of_ne, length, ℕ, ◌<◌, ◌≡◌, refl, ◌∙◌, ◌≢◌, inr, true, some, List, ℤ, pos, negsuc, suc,
  ◌+◌, ◌^◌, ap, lt→ltb, arith,
}

-- A file is where a seek has put it.
pub record IsLanded (geo : Geometry) (content : ℕ → Buf) (cs : List ℕ) (x : File) : Type 0 where
  pub is_open : IsOpen geo content cs x
  pub sect : x.sect ≡ sector_at geo cs x.offset
  pub loaded : x.buf ≡ content (sector_at geo cs x.offset)

pub landed_self :
    (geo : Geometry) (content : ℕ → Buf) (cs : List ℕ) (x : File)
    → IsLanded geo content cs x
    → x ≡ landed geo content cs x.offset x
landed_self geo content cs x v =
    ap (λ c. record x { clust = c }) v.is_open.clust
    ∙ ap (λ s. record x { clust = cluster_at geo cs x.offset; sect = s }) v.sect
    ∙ ap
        (λ b. record x {
          clust = cluster_at geo cs x.offset;
          sect = sector_at geo cs x.offset;
          buf = b;
        })
        v.loaded

-- `off` is where a seek of `offset` is to end: as many bytes behind the start, or before or behind
-- the current position or the end, at 0 or behind and below 2 ^ 32.
pub data Lands (x : File) : Seek → ℤ → (off : ℕ) → Type 0 where
  from_start : (n : ℕ) → n < 2 ^ 32 → Lands x start (pos n) n
  forwards : (n off : ℕ) → off ≡ x.offset + n → off < 2 ^ 32 → Lands x curr (pos n) off
  backwards : (n off : ℕ) → off + suc n ≡ x.offset → Lands x curr (negsuc n) off
  behind_end : (n off : ℕ) → off ≡ x.size + n → off < 2 ^ 32 → Lands x end (pos n) off
  before_end : (n off : ℕ) → off + suc n ≡ x.size → Lands x end (negsuc n) off

move_up : (base n off : ℕ) → off ≡ base + n → off < 2 ^ 32 → move_to base (pos n) ≡ some off
unfolding move_to
move_up base n off e lt = ground (arith, e)

move_down : (base n off : ℕ) → off + suc n ≡ base → move_to base (negsuc n) ≡ some off
unfolding move_to
move_down base n off e = rw (lt→ltb n base (omega arith)) (ap some (omega arith))

Lands-move_to :
    {x : File} {seek : Seek} {offset : ℤ} {off : ℕ}
    → Lands x seek offset off
    → move_to (seek_base seek x) offset ≡ some off
Lands-move_to (from_start n lt) = move_up 0 n n (omega arith) lt
Lands-move_to {x} (forwards n off e lt) = move_up x.offset n off e lt
Lands-move_to {x} (backwards n off e) = move_down x.offset n off e
Lands-move_to {x} (behind_end n off e lt) = move_up x.size n off e lt
Lands-move_to {x} (before_end n off e) = move_down x.size n off e

module _ {D : Type 0} {ops : DiskOps D} {sector : D → ℕ → Buf} (dev : IsDevice ops sector)
    (junk : Junk) (geo : Geometry) (content : ℕ → Buf) (lay : IsLaidOut geo) (z : IsSized geo) where
  seek_inside :
      (offset : ℤ) (seek : Seek) (off : ℕ) (x : File) (f : Fat D)
      → x.opened ≡ true
      → x.sclust ≢ 0
      → x.size ≢ 0
      → move_to (seek_base seek x) offset ≡ some off
      → file_seek ops junk offset seek x f ≡ seek_in ops junk off x f
  unfolding file_seek
  seek_inside offset seek off x f opened starts sized e =
      rw (e, ==-false_of_ne x.sclust 0 starts, ==-false_of_ne x.size 0 sized, opened) refl

  pub file_seek-landed :
      (offset : ℤ) (seek : Seek) (off : ℕ) (cs : List ℕ) (x : File) (f : Fat D)
      → IsOpen geo content cs x
      → Lands x seek offset off
      → clust_idx geo off < length cs
      → IsAtRest sector geo content f
      → (g : Fat D) × (file_seek ops junk offset seek x f ≡ (ok tt, landed geo content cs off x, g))
        × IsAtRest sector geo content g
  file_seek-landed offset seek off cs x f v e lt rest =
      let (g, run, rested) = seek_in-run dev junk geo content lay z off cs x f v lt rest in
      (g, seek_inside offset seek off x f v.opened v.starts v.sized (Lands-move_to e) ∙ run, rested)

  -- Where it lands it is open again.
  pub landed-IsOpen :
      (off : ℕ) (cs : List ℕ) (x : File)
      → IsOpen geo content cs x
      → clust_idx geo off < length cs
      → IsOpen geo content cs (landed geo content cs off x)
  landed-IsOpen off cs x v lt = record {
    opened = v.opened;
    clean = v.clean;
    starts = v.starts;
    sized = v.sized;
    chain = v.chain;
    two = v.two;
    inside = lt;
    clust = refl;
    buf = inr refl;
  }
