-- ===== src/Fat/File.antt =====
-- Open files of src/fs/fat.c: fat_file_seek, read, write, sync and close.
pub mod Lost
pub mod Follow
pub mod Position
pub mod Land
pub mod Landed
pub mod Slice
pub mod Read
use beaner_os.Base.{
  ltb, leb, ◌==◌, if◌then◌else◌, ℕ, zero, suc, ◌+◌, ◌-◌, ◌*◌, ◌/◌, ◌%◌, ◌^◌, Bool, true, false, not,
  ◌&&◌, ◌||◌, min, bit_and, bit_or, Option, none, some, List, [], ◌∷◌, ◌++◌, length, take, drop,
  set, ℤ, pos, negsuc,
}
use beaner_os.Fat.Bytes.{Buf, get8, put16, put32}
use beaner_os.Fat.Time.{Timestamp, encode_timestamp}
use beaner_os.Fat.State.{
  Fat, DiskOps, Res, ok, err, io, param, eof, denied, broken, stuck, M, add32,
}
use beaner_os.Fat.Cache.{update_buf, sync_fs}
use beaner_os.Fat.Geo.{clust_to_sect}
use beaner_os.Fat.Over.{T, pure, throw, ◌>>=◌, ◌>>◌, self, volume, change, lift}
use beaner_os.Fat.Table.{is_broken, is_last, get_fat}
use beaner_os.Fat.Chain.{Junk, stretch_chain}

-- `File`; `opened` stands for `fat` not NULL, and each bit of `flags` that is used is a field.
pub record File : Type 0 where
  pub opened : Bool
  pub dir_sect : ℕ
  pub dir_idx : ℕ
  pub sclust : ℕ
  pub clust : ℕ
  pub sect : ℕ
  pub size : ℕ
  pub offset : ℕ
  pub buf : Buf
  pub can_write : Bool
  pub can_read : Bool
  pub accessed : Bool
  pub modified : Bool
  pub dirty : Bool

-- `FAT_SEEK_START`, `FAT_SEEK_CURR`, `FAT_SEEK_END`.
pub data Seek : Type 0 where
  start curr end : Seek

-- `sect` of a file that has no sector loaded.
abbrev pub no_sect : ℕ
no_sect = 0xffff_ffff

-- A function on an open file and its volume.
abbrev pub F : Type 0 → Type 0 → Type 0
F D A = T File D A

-- `off64 += offset`, and FAT_ERR_EOF outside 0 to 0xffffffff.
unfoldable pub move_to : (base : ℕ) → ℤ → Option ℕ
move_to base (pos n) = if ltb 0xffff_ffff (base + n) then none else some (base + n)
move_to base (negsuc n) = if ltb n base then some (base - suc n) else none

-- What an offset counts from.
abbrev pub seek_base : Seek → File → ℕ
seek_base start x = 0
seek_base curr x = x.offset
seek_base end x = x.size

-- The file has no data as yet, or so `size` says.
abbrev pub set_empty : File → File
set_empty x = record x { offset = 0; sect = no_sect }

module _ {D : Type 0} (ops : DiskOps D) (junk : Junk) where
  -- `ops.write(file->buf, sect)` past the cache of the volume.
  unfoldable pub write_sect : ℕ → F D (Unit {0})
  write_sect s x f =
      let (done, d) = ops.write f.disk s x.buf in
      (if done then ok tt else err io, x, record f { disk = d })

  -- `ops.read(file->buf, file->sect)`
  unfoldable pub read_sect : F D (Unit {0})
  read_sect x f =
      let (done, b, d) = ops.read f.disk x.sect x.buf in
      (if done then ok tt else err io, record x { buf = b }, record f { disk = d })

  -- One round of the loop that follows the cluster chain.
  unfoldable pub next_of : F D (Unit {0})
  next_of = do
    x ← self
    (next, fl) ← lift (get_fat ops x.clust)
    if is_broken fl then throw broken else (do
      c ← if is_last fl then lift (stretch_chain ops junk x.clust) else pure next
      change (λ y. record y { clust = c }))

  unfoldable pub follow : ℕ → F D (Unit {0})
  follow zero = pure tt
  follow (suc n) = do next_of; follow n

  -- `// Update file buffer when moving to new sector`
  unfoldable pub load_sect : (ssect : ℕ) → F D (Unit {0})
  load_sect ssect = do
    x ← self
    if x.sect == ssect then pure tt else (do
      if x.dirty then (do write_sect ssect; change (λ y. record y { dirty = false })) else pure tt
      read_sect)

  -- Back to the first cluster, where the target lies before the current one. Gives the number of
  -- the cluster that the file is at.
  unfoldable pub rewind : (dst_clust src_clust : ℕ) → F D ℕ
  rewind dst_clust src_clust =
      if ltb dst_clust src_clust
      then (do
        f ← volume
        change (λ x. record x { clust = x.sclust; sect = clust_to_sect f.geo x.sclust; offset = 0 })
        pure 0)
      else pure src_clust

  -- A file that has clusters moves to `off`.
  unfoldable pub seek_in : (off : ℕ) → F D (Unit {0})
  seek_in off = do
    x ← self
    f ← volume
    let clust_size = 512 * 2 ^ f.geo.clust_shift % 2 ^ 32
    src_clust ← rewind (off / clust_size) (x.offset / clust_size)
    follow (off / clust_size - src_clust)
    g ← volume
    change (λ y. record y {
      sect = add32 (clust_to_sect g.geo y.clust) (bit_and (off / 512) g.geo.clust_msk);
      offset = off;
    })
    load_sect x.sect

  unfoldable pub file_seek : ℤ → Seek → F D (Unit {0})
  file_seek offset seek x f =
      let inside = seek_in in
      (if not x.opened then throw param else elim (move_to (seek_base seek x) offset) [
        | none ↦ throw eof
        | some off ↦ if (x.sclust == 0) || (x.size == 0) then change set_empty else inside off
      ])
        x f

-- `memcpy(buf + idx, src, cnt)`
unfoldable pub put_bytes : (buf : Buf) (idx : ℕ) → List ℕ → Buf
put_bytes buf idx [] = buf
put_bytes buf idx (v ∷ src) = put_bytes (set buf idx v) (idx + 1) src

-- The bytes of one round more.
abbrev pub add_bytes : {D : Type 0} → ℕ → Res ℕ × File × Fat D → Res ℕ × File × Fat D
add_bytes cnt (ok n, x, f) = (ok (cnt + n), x, f)
add_bytes cnt (err e, x, f) = (err e, x, f)

-- `if (err) break;` after `cnt` bytes are taken over.
abbrev pub after_write :
    {D : Type 0} → ℕ → F D ℕ → Res (Unit {0}) × File × Fat D → Res ℕ × File × Fat D
after_write cnt rest (ok _, x, f) = add_bytes cnt (rest x f)
after_write cnt rest (err e, x, f) = (ok cnt, x, f)

-- `if (file->offset > file->size) file->size = file->offset;`
abbrev pub grow : File → File
grow x = if ltb x.size x.offset then record x { size = x.offset } else x

-- What a read gives: the bytes, and how it ended.
abbrev pub Got : Type 0 → Type 0
Got D = (List ℕ × Res (Unit {0})) × File × Fat D

abbrev pub add_read : {D : Type 0} → List ℕ → Got D → Got D
add_read bs ((cs, r), x, f) = ((bs ++ cs, r), x, f)

module _ {D : Type 0} (ops : DiskOps D) (junk : Junk) where
  -- The loop of fat_file_write on the bytes `src`; gives how many of them are written. An error of
  -- the seek ends it and is dropped. A round for each byte is enough.
  unfoldable pub write_loop : (fuel : ℕ) (src : List ℕ) → F D ℕ
  write_loop k [] x f = (ok 0, x, f)
  write_loop zero (v ∷ vs) x f = (err stuck, x, f)
  write_loop (suc k) (v ∷ vs) x f =
      let idx = x.offset % 512 in
      let cnt = min (length (v ∷ vs)) (512 - idx) in
      let y = record x { buf = put_bytes x.buf idx (take cnt (v ∷ vs)); dirty = true } in
      after_write cnt (write_loop k (drop cnt (v ∷ vs))) (file_seek ops junk (pos cnt) curr y f)

  unfoldable pub file_write : (src : List ℕ) → F D ℕ
  file_write src = do
    x ← self
    if not x.opened then throw param else if not x.can_write then throw denied else (do
      change (λ y. record y { modified = true; accessed = true })
      n ← write_loop (length src) src
      change grow
      pure n)

  -- The loop of fat_file_read. Where 2 ^ 31 bytes or more are left in the file, the cast to int is
  -- negative and memcpy is called with a negative size.
  unfoldable pub read_loop : (fuel len : ℕ) → File → Fat D → Got D
  read_loop zero len x f = (([], if len == 0 then ok tt else err stuck), x, f)
  read_loop (suc k) len x f =
      let idx = x.offset % 512 in
      let cnt = min len (min (512 - idx) (x.size - x.offset)) in
      let (r, z, g) = file_seek ops junk (pos cnt) curr x f in
      let rest = read_loop k (len - cnt) z g in
      let bytes = take cnt (drop idx x.buf) in
      if not (ltb 0 len && ltb x.offset x.size)
      then (([], ok tt), x, f)
      else if leb (2 ^ 31) (x.size - x.offset)
      then (([], err stuck), x, f)
      else elim r [ ok _ ↦ add_read bytes rest | err e ↦ ((bytes, err e), z, g) ]

  unfoldable pub file_read : (len : ℕ) → File → Fat D → Got D
  file_read len x f =
      let rest = read_loop len len (record x { accessed = true }) f in
      if not x.opened
      then (([], err param), x, f)
      else if not x.can_read
      then (([], err denied), x, f)
      else rest

  -- The directory entry of the file, at `dir_idx` of the cached sector: what fat_file_sync writes
  -- into it at `date` and `time`.
  unfoldable pub put_sfn : File → (date time : ℕ) → Buf → Buf
  put_sfn x date time b =
      let b1 = if x.accessed then put16 b (x.dir_idx + 18) date else b in
      let b2 = set b1 (x.dir_idx + 11) (bit_or (get8 b1 (x.dir_idx + 11)) 0x20) in
      let b3 = put32 b2 (x.dir_idx + 28) x.size in
      let b4 = put16 (put16 b3 (x.dir_idx + 24) date) (x.dir_idx + 22) time in
      if x.modified then b4 else b1

  unfoldable pub sync_entry : Timestamp → File → M D (Unit {0})
  sync_entry now x f =
      let (date, time) = encode_timestamp now in
      let (r, g) = update_buf ops x.dir_sect f in
      elim r [
        | ok _ ↦ (ok tt, record g { buf = put_sfn x date time g.buf; buf_dirty = true })
        | err e ↦ (err e, g)
      ]

  unfoldable pub file_sync : (now : Timestamp) → F D (Unit {0})
  file_sync now = do
    x ← self
    if not x.opened then throw param else (do
      if x.sect == no_sect then pure tt else write_sect ops junk x.sect
      if x.accessed || x.modified then lift (sync_entry now x) else pure tt
      lift (sync_fs ops)
      change (λ y. record y { accessed = false; modified = false }))

  unfoldable pub file_close : (now : Timestamp) → F D (Unit {0})
  file_close now = do x ← self; if not x.opened then throw param else file_sync now
