-- ===== src/Fat/Path.antt =====
-- Paths and entries in src/fs/fat.c: follow_path, remove_entries, and the operations on directories
-- that change nothing. A path is the list of its characters.
use beaner_os.Fat.Bytes.{Buf, get16, get32}
use beaner_os.Fat.State.{Fat, DiskOps, Res, ok, err, param, path, eof, denied, broken, stuck}
use beaner_os.Fat.Over.{T, pure, throw, ◌>>=◌, ◌>>◌, self, volume, change, change_volume, lift}
use beaner_os.Fat.Geo.{sect_to_clust}
use beaner_os.Fat.Time.{Timestamp, decode_timestamp}
use beaner_os.Fat.Cache.{sync_fs}
use beaner_os.Fat.Chain.{remove_chain}
use beaner_os.Fat.Name.{get_crc, sfn_free, split_path, subpath_len, skip_slashes, parse_sfn_name}
use beaner_os.Fat.File.{put_bytes}
use beaner_os.Fat.Dir.{
  Loc, W, has_attr, sfn_attr, sfn_is_last, sfn_is_free, sfn_is_lfn, sfn_cluster, sfn_name,
  same_bytes, dir_at_clust, dir_enter, dir_at_root, dir_next, dir_advance, load, parse_lfn_name,
  dir_search, entry_count,
}
use beaner_os.Base.{
  ℕ, zero, suc, ◌==◌, if◌then◌else◌, length, set, take, ◌+◌, Bool, true, false, not, ◌&&◌, ◌||◌,
  Option, none, some, List, [], ◌∷◌,
}

-- What follow_path gives where it does not fail: the entry of the whole path, with `*loc` if it was
-- set; or FAT_ERR_EOF, with the part of the path that is missing.
pub data Found : Type 0 where
  reached : Option Loc → (rest : List ℕ) → Found
  missing : (rest : List ℕ) → Found

-- The attribute bits of an entry that may not be deleted: read-only, system, label.
abbrev pub is_kept : (attr : ℕ) → Bool
is_kept attr = has_attr 1 attr || has_attr 4 attr || has_attr 8 attr

-- FAT_ERR_EOF becomes `none`.
abbrev pub catch_eof : {S D A : Type 0} → Res A × S × Fat D → Res (Option A) × S × Fat D
catch_eof (ok a, x, f) = (ok (some a), x, f)
catch_eof (err eof, x, f) = (ok none, x, f)
catch_eof (err e, x, f) = (err e, x, f)

abbrev pub caught : {S D A : Type 0} → T S D A → T S D (Option A)
caught m x f = catch_eof (m x f)

-- `DirInfo`
pub record DirInfo : Type 0 where
  pub created : Timestamp
  pub modified : Timestamp
  pub size : ℕ
  pub attr : ℕ
  pub name : List ℕ

module _ {D : Type 0} where
  -- A write into the cached sector of the directory.
  abbrev pub edit : (Buf → Buf) → W D (Unit {0})
  edit g = change_volume (λ f. record f { buf = g f.buf; buf_dirty = true })

  -- `dir->clust = sect_to_clust(...)`, `dir->sect`, `dir->idx` from a location.
  unfoldable pub go_to : Loc → W D (Unit {0})
  go_to loc = do
    f ← volume
    change (λ x. record x { clust = sect_to_clust f.geo loc.sect; sect = loc.sect; idx = loc.idx })

module _ {D : Type 0} (ops : DiskOps D) where
  -- The loop of follow_path. A round takes a character of the path at least.
  unfoldable pub follow_parts :
      (fuel : ℕ) (str : List ℕ) (dir_clust : ℕ) (enterable : Bool) → Option Loc → W D Found
  follow_parts zero str dir_clust enterable loc = throw stuck
  follow_parts (suc k) str dir_clust enterable loc =
      let (name, rest) = split_path (skip_slashes str) in
      if length name == 0
      then pure (reached loc (skip_slashes str))
      else if not enterable
      then throw path
      else (do
        dir_enter dir_clust
        r ← caught (dir_search ops name)
        elim r [
          | none ↦ pure (missing (skip_slashes str))
          | some here ↦ (do
            x ← self
            f ← volume
            follow_parts k rest (sfn_cluster f.buf x.idx) (has_attr 16 (sfn_attr f.buf x.idx))
                (some here))
        ])

  -- Behind the name of the volume.
  unfoldable pub follow_from_root : (str : List ℕ) → W D Found
  follow_from_root str = do
    change (λ x. record x { opened = true })
    f ← volume
    dir_enter f.geo.root_clust
    follow_parts (length str + 1) str f.geo.root_clust true none

  -- `vol_name` is the name that the volume is mounted by, the only one in `g_fat_list`.
  unfoldable pub follow_path : (vol_name str : List ℕ) → W D Found
  follow_path vol_name [] = throw path
  follow_path vol_name (c ∷ str) =
      let (name, rest) = split_path str in
      if not (c == b'/') || (length name == 0)
      then throw path
      else if not (same_bytes name vol_name)
      then (do change (λ x. record x { opened = false }); throw path)
      else follow_from_root rest

  -- The loop of remove_entries; `last` is the last entry to delete.
  unfoldable pub remove_from : (fuel : ℕ) (last : Loc) → W D (Unit {0})
  remove_from zero last = throw stuck
  remove_from (suc k) last = do
    _ ← load ops
    x ← self
    edit (λ b. set b x.idx sfn_free)
    elim ((x.sect == last.sect) && (x.idx == last.idx)) [
      | true ↦ pure tt
      | false ↦ (do dir_next ops; remove_from k last)
    ]

  unfoldable pub remove_entries : Loc → W D (Unit {0})
  remove_entries loc = do
    x ← self
    f ← volume
    go_to loc
    remove_from (entry_count f.geo) (record { sect = x.sect; idx = x.idx })

  -- The loop of fat_unlink over the entries of a directory behind `.` and `..`.
  unfoldable pub check_empty : (fuel : ℕ) → W D (Unit {0})
  check_empty zero = throw stuck
  check_empty (suc k) = do
    b ← load ops
    x ← self
    elim (sfn_is_last b x.idx) [
      | true ↦ pure tt
      | false ↦ (if sfn_is_free b x.idx then (do dir_next ops; check_empty k) else throw denied)
    ]

  -- `Dir tmp = dir;`: the walk over the directory leaves `dir` as it was.
  unfoldable pub check_dir : (clust : ℕ) → W D (Unit {0})
  check_dir clust = do
    x ← self
    f ← volume
    dir_enter clust
    dir_advance ops 2
    check_empty (entry_count f.geo)
    change (λ _. x)

  -- fat_unlink, once the entry is found.
  unfoldable pub unlink_at : Loc → W D (Unit {0})
  unlink_at loc = do
    x ← self
    f ← volume
    let attr = sfn_attr f.buf x.idx
    let clust = sfn_cluster f.buf x.idx
    if is_kept attr then throw denied else (do
      if has_attr 16 attr then check_dir clust else pure tt
      lift (remove_chain ops clust)
      remove_entries loc
      lift (sync_fs ops))

  unfoldable pub unlink : (vol_name str : List ℕ) → W D (Unit {0})
  unlink vol_name str = do
    r ← follow_path vol_name str
    root ← dir_at_root
    elim r [
      | missing rest ↦ throw eof
      | reached none rest ↦ (if root then throw denied else throw stuck)
      | reached (some loc) rest ↦ (if root then throw denied else unlink_at loc)
    ]

  -- fat_dir_open, once the entry is found.
  unfoldable pub open_at : W D (Unit {0})
  open_at = do
    b ← load ops
    x ← self
    if has_attr 16 (sfn_attr b x.idx) then dir_enter (sfn_cluster b x.idx) else throw path

  unfoldable pub dir_open : (vol_name str : List ℕ) → W D (Unit {0})
  dir_open vol_name str = do
    r ← follow_path vol_name str
    root ← dir_at_root
    elim r [ missing rest ↦ throw eof | reached loc rest ↦ (if root then pure tt else open_at) ]

  -- The name of the entry, in `g_buf`, once a long name is read or the short one taken over.
  unfoldable pub read_name : Buf → W D (Unit {0})
  read_name b = do
    x ← self
    let short = parse_sfn_name (sfn_name b x.idx)
    if sfn_is_lfn b x.idx
        then (do
          parse_lfn_name ops
          c ← load ops
          y ← self
          let alien = sfn_is_free c y.idx || not (y.g_crc == get_crc (sfn_name c y.idx))
          if alien then throw broken else pure tt)
        else change (λ y. record y { g_buf = put_bytes y.g_buf 0 short; g_len = length short })

  -- What fat_dir_read takes from the entry at `idx`.
  unfoldable pub info_of : Buf → (idx : ℕ) → (name : List ℕ) → DirInfo
  info_of b idx name = record {
    created = decode_timestamp (get16 b (idx + 16)) (get16 b (idx + 14));
    modified = decode_timestamp (get16 b (idx + 24)) (get16 b (idx + 22));
    size = get32 b (idx + 28);
    attr = sfn_attr b idx;
    name = name;
  }

  unfoldable pub read_loop : (fuel : ℕ) → W D DirInfo
  read_loop zero = throw stuck
  read_loop (suc k) = do
    b ← load ops
    x ← self
    elim (sfn_is_last b x.idx) [
      | true ↦ throw eof
      | false ↦ elim (sfn_is_free b x.idx) [
        | true ↦ (do dir_next ops; read_loop k)
        | false ↦ (do
          read_name b
          y ← self
          f ← volume
          pure (info_of f.buf y.idx (take y.g_len y.g_buf)))
      ]
    ]

  unfoldable pub dir_read : W D DirInfo
  dir_read = do
    x ← self
    f ← volume
    if x.opened then read_loop (entry_count f.geo) else throw param

  -- fat_dir_next and fat_dir_rewind.
  unfoldable pub user_next : W D (Unit {0})
  user_next = do x ← self; if x.opened then dir_next ops else throw param

  unfoldable pub dir_rewind : W D (Unit {0})
  dir_rewind = do x ← self; if x.opened then dir_at_clust x.sclust else throw param

  -- `unwritten` is what the local `loc` holds where follow_path does not write it.
  unfoldable pub stat : (unwritten : Loc) (vol_name str : List ℕ) → W D DirInfo
  stat unwritten vol_name str = do
    r ← follow_path vol_name str
    elim r [
      | missing rest ↦ throw eof
      | reached none rest ↦
          (if subpath_len rest == 0 then (do go_to unwritten; dir_read) else throw path)
      | reached (some loc) rest ↦
          (if subpath_len rest == 0 then (do go_to loc; dir_read) else throw path)
    ]
