-- ===== src/Fat/Add.antt =====
-- New entries in directories of src/fs/fat.c: dir_add, fat_dir_create and fat_file_open.
use beaner_os.Fat.Bytes.{Buf, get32, put16, put32}
use beaner_os.Fat.State.{Fat, DiskOps, Res, ok, err, param, path, denied, stuck}
use beaner_os.Fat.Over.{pure, throw, ◌>>=◌, ◌>>◌, self, volume, lift}
use beaner_os.Fat.Geo.{clust_to_sect}
use beaner_os.Fat.Clear.{clust_clear}
use beaner_os.Fat.Time.{Timestamp, encode_timestamp}
use beaner_os.Fat.Cache.{update_buf, sync_fs}
use beaner_os.Fat.Chain.{Junk, stretch_chain, create_chain}
use beaner_os.Fat.Name.{get_crc, put_sfn_name, put_lfn_name_frag, last_subpath_len}
use beaner_os.Fat.File.{File, no_sect, start, end, put_bytes, file_seek}
use beaner_os.Fat.Dir.{
  Dir, Loc, W, attr_lfn, sfn_is_last, sfn_is_free, sfn_cluster, dir_at_clust, dir_enter, dir_next,
  load, entry_count,
}
use beaner_os.Fat.Path.{reached, missing, caught, edit, go_to, follow_path}
use beaner_os.Base.{
  ℕ, zero, suc, pos, ltb, ◌==◌, if◌then◌else◌, length, set, take, drop, replicate, ◌+◌, ◌-◌, ◌*◌,
  ◌/◌, ◌%◌, ◌^◌, Bool, true, false, not, ◌&&◌, ◌||◌, none, some, List, ◌∷◌,
}

-- What the search of dir_add has found: free entries in a row, where the first of them is, and
-- whether the last entry was met.
pub record Space : Type 0 where
  pub cnt : ℕ
  pub first : Loc
  pub eod : Bool

-- One round of it, at the entry `here` of the buffer.
unfoldable pub see_entry : Buf → (here : Loc) → Space → Space
see_entry b here s =
    let free = s.eod || sfn_is_free b here.idx in
    record {
      cnt = if free then s.cnt + 1 else 0;
      first = if free && (s.cnt == 0) then here else s.first;
      eod = s.eod || sfn_is_last b here.idx;
    }

-- The entry of a long name: fragment `i`, with `LFN_HEAD_MSK` in the first that is written.
unfoldable pub put_lfn : (name : List ℕ) (crc i mask idx : ℕ) → Buf → Buf
put_lfn name crc i mask idx b =
    let b1 = put_lfn_name_frag b idx (take 13 (drop (13 * (i - 1)) name)) in
    let b2 = set (set (set b1 (idx + 11) attr_lfn) idx (mask + i)) (idx + 13) crc in
    put16 (set b2 (idx + 12) 0) (idx + 26) 0

-- The entry itself.
unfoldable pub put_entry : (sfn_name : List ℕ) (attr clust date time idx : ℕ) → Buf → Buf
put_entry sfn_name attr clust date time idx b =
    let b1 = put_bytes b idx sfn_name in
    let b2 = put16 (put16 b1 (idx + 20) (clust / 2 ^ 16)) (idx + 26) (clust % 2 ^ 16) in
    let b3 = set (set (set b2 (idx + 11) attr) (idx + 12) 0) (idx + 13) 0 in
    let b4 = put16 (put16 b3 (idx + 14) time) (idx + 22) time in
    let b5 = put16 (put16 (put16 b4 (idx + 16) date) (idx + 24) date) (idx + 18) date in
    put32 b5 (idx + 28) 0

-- The entries `.` and `..` of a new directory.
unfoldable pub put_dots : (clust parent date time : ℕ) → Buf → Buf
put_dots clust parent date time b =
    let b1 = put_bytes b 0 (b'.' ∷ replicate 10 b' ') in
    let b2 = put16 (put16 (set b1 11 0x10) 20 (clust / 2 ^ 16)) 26 (clust % 2 ^ 16) in
    let b3 = put16 (put16 (put16 (put16 (put16 b2 16 date) 14 time) 24 date) 22 time) 18 date in
    let b4 = set (put_bytes b3 32 (take 32 b3)) 33 b'.' in
    put16 (put16 b4 52 (parent / 2 ^ 16)) 58 (parent % 2 ^ 16)

-- The flags of fat_file_open.
pub record OpenFlags : Type 0 where
  pub write : Bool
  pub read : Bool
  pub append : Bool
  pub trunc : Bool
  pub create : Bool

-- The fields of `File` that fat_file_open sets from the entry, with FAT_TRUNC done.
unfoldable pub file_of : OpenFlags → Dir → Buf → File → File
file_of flags x b file =
    let size = get32 b (x.idx + 28) in
    let cuts = not (size == 0) && flags.trunc in
    record file {
      opened = true;
      dir_sect = x.sect;
      dir_idx = x.idx;
      sclust = sfn_cluster b x.idx;
      clust = sfn_cluster b x.idx;
      sect = no_sect;
      offset = 0;
      size = if cuts then 0 else size;
      can_write = flags.write;
      can_read = flags.read;
      accessed = false;
      modified = cuts;
      dirty = false;
    }

module _ {D : Type 0} (ops : DiskOps D) (junk : Junk) (now : Timestamp) where
  -- Behind the last cluster a new one is added and cleared.
  unfoldable pub grow_dir : W D (Unit {0})
  grow_dir = do
    x ← self
    next ← lift (stretch_chain ops junk x.clust)
    dir_at_clust next
    y ← self
    lift (clust_clear ops y.clust)

  unfoldable pub dir_next_stretch : W D (Unit {0})
  dir_next_stretch = do r ← caught (dir_next ops); elim r [ some _ ↦ pure tt | none ↦ grow_dir ]

  -- Until `wanted` free entries in a row are seen.
  unfoldable pub find_space : (fuel wanted : ℕ) → Space → W D Space
  find_space zero wanted s = throw stuck
  find_space (suc k) wanted s = elim (ltb s.cnt wanted) [
    | false ↦ pure s
    | true ↦ (do
      b ← load ops
      x ← self
      dir_next_stretch
      find_space k wanted (see_entry b (record { sect = x.sect; idx = x.idx }) s))
  ]

  -- The entries of the long name, from fragment `i` down to the first.
  unfoldable pub add_lfns : (name : List ℕ) (crc i mask : ℕ) → W D (Unit {0})
  add_lfns name crc zero mask = pure tt
  add_lfns name crc (suc i) mask = do
    _ ← load ops
    x ← self
    edit (put_lfn name crc (suc i) mask x.idx)
    dir_next ops
    add_lfns name crc i 0

  -- `if (eod)`: the entry behind the new ones becomes the last.
  unfoldable pub put_eod : W D (Unit {0})
  put_eod = do _ ← load ops; x ← self; edit (λ b. set b x.idx 0)

  abbrev pub no_space : Space
  no_space = record { cnt = 0; first = record { sect = 0; idx = 0 }; eod = false }

  unfoldable pub dir_add : (name : List ℕ) (attr clust : ℕ) → W D (Unit {0})
  dir_add name attr clust =
      let lfns = (length name + 12) / 13 in
      let sfn = put_sfn_name name in
      let (date, time) = encode_timestamp now in
      if (length name == 0) || ltb 255 (length name) then throw param else (do
        x ← self
        dir_enter x.sclust
        f ← volume
        s ← find_space (entry_count f.geo + lfns + 2) (lfns + 1) no_space
        if s.eod then put_eod else pure tt
        go_to s.first
        add_lfns name (get_crc sfn) lfns 0x40
        _ ← load ops
        y ← self
        edit (put_entry sfn attr clust date time y.idx))

  -- fat_dir_create behind follow_path; `rest` is the name of the new directory.
  unfoldable pub create_dir : (rest : List ℕ) → W D (Unit {0})
  create_dir rest = do
    let (date, time) = encode_timestamp now
    if last_subpath_len rest == 0 then throw path else (do
      clust ← lift (create_chain ops junk)
      lift (clust_clear ops clust)
      f ← volume
      lift (update_buf ops (clust_to_sect f.geo clust))
      x ← self
      let parent = if x.sclust == f.geo.root_clust then 0 else x.sclust
      edit (put_dots clust parent date time)
      dir_add (take (last_subpath_len rest) rest) 0x10 clust
      dir_enter clust
      lift (sync_fs ops))

  -- A path that is there already is no error: `err` is FAT_ERR_NONE.
  unfoldable pub dir_create : (vol_name str : List ℕ) → W D (Unit {0})
  dir_create vol_name str = do
    r ← follow_path ops vol_name str
    elim r [ reached loc rest ↦ pure tt | missing rest ↦ create_dir rest ]

  -- A new file in the directory that follow_path left.
  unfoldable pub create_file : (rest : List ℕ) → W D (Unit {0})
  create_file rest = if last_subpath_len rest == 0 then throw path else (do
    clust ← lift (create_chain ops junk)
    dir_add (take (last_subpath_len rest) rest) 0x20 clust)

  -- fat_file_open up to the seek.
  unfoldable pub open_entry : OpenFlags → (vol_name str : List ℕ) → File → W D File
  open_entry flags vol_name str file = do
    r ← follow_path ops vol_name str
    elim r [
      | reached loc rest ↦ pure tt
      | missing rest ↦ (if flags.create then create_file rest else throw denied)
    ]
    x ← self
    f ← volume
    pure (file_of flags x f.buf file)

  abbrev pub opened :
      OpenFlags → File → Res File × Dir × Fat D → Res (Unit {0}) × File × Dir × Fat D
  opened flags file (err e, x, f) = (err e, file, x, f)
  opened flags file (ok new, x, f) =
      let (r, y, g) = file_seek ops junk (pos 0) (if flags.append then end else start) new f in
      (r, y, x, g)

  unfoldable pub file_open :
      OpenFlags → (vol_name str : List ℕ) → File → Dir → Fat D → Res (Unit {0}) × File × Dir × Fat D
  file_open flags vol_name str file x f = opened flags file (open_entry flags vol_name str file x f)
