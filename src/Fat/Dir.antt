-- ===== src/Fat/Dir.antt =====
-- Directories of src/fs/fat.c: walking the entries, and searching them for a name.
pub mod Walk
pub mod Step
use beaner_os.Fat.Bytes.{Buf, get8, get16}
use beaner_os.Fat.State.{DiskOps, Geometry, eof, broken, stuck, add32}
use beaner_os.Fat.Over.{T, pure, throw, ◌>>=◌, ◌>>◌, self, volume, change, lift}
use beaner_os.Fat.Geo.{clust_to_sect}
use beaner_os.Fat.Cache.{update_buf}
use beaner_os.Fat.Table.{is_broken, is_last, get_fat}
use beaner_os.Fat.Name.{get_crc, sfn_free, sfn_last, put_sfn_name, parse_frag, lfn_indices}
use beaner_os.Fat.File.{put_bytes}
use beaner_os.Base.{
  ℕ, zero, suc, ltb, leb, ◌==◌, if◌then◌else◌, length, take, drop, ◌+◌, ◌*◌, ◌/◌, ◌%◌, ◌^◌, bit_and,
  Bool, true, false, not, ◌&&◌, ◌||◌, Option, none, some, List, [], ◌∷◌, map,
}

-- `Dir`, with the global `g_buf`, `g_len` and `g_crc`. `opened` stands for `fat` not NULL.
pub record Dir : Type 0 where
  pub opened : Bool
  pub sclust : ℕ
  pub clust : ℕ
  pub sect : ℕ
  pub idx : ℕ
  pub g_buf : Buf
  pub g_len : ℕ
  pub g_crc : ℕ

-- `Loc`
pub record Loc : Type 0 where
  pub sect : ℕ
  pub idx : ℕ

-- A function on a directory and its volume.
abbrev pub W : Type 0 → Type 0 → Type 0
W D A = T Dir D A

-- `sizeof(Sfn)`
abbrev pub entry_size : ℕ
entry_size = 32

-- `FAT_ATTR_LFN` and the bit `FAT_ATTR_DIR`.
abbrev pub attr_lfn : ℕ
attr_lfn = 0x0f

abbrev pub has_attr : (bit attr : ℕ) → Bool
has_attr bit attr = not (attr / bit % 2 == 0)

-- The fields of the entry at `idx` of a buffer.
abbrev pub sfn_attr : Buf → (idx : ℕ) → ℕ
sfn_attr b idx = get8 b (idx + 11)

unfoldable pub sfn_is_last : Buf → (idx : ℕ) → Bool
sfn_is_last b idx = get8 b idx == sfn_last

unfoldable pub sfn_is_free : Buf → (idx : ℕ) → Bool
sfn_is_free b idx = (get8 b idx == sfn_last) || (get8 b idx == sfn_free)

unfoldable pub sfn_is_lfn : Buf → (idx : ℕ) → Bool
sfn_is_lfn b idx = sfn_attr b idx == attr_lfn

-- `clust_hi << 16 | clust_lo`
unfoldable pub sfn_cluster : Buf → (idx : ℕ) → ℕ
sfn_cluster b idx = get16 b (idx + 20) * 2 ^ 16 + get16 b (idx + 26)

-- The 11 bytes of the name.
unfoldable pub sfn_name : Buf → (idx : ℕ) → List ℕ
sfn_name b idx = map (λ c. c % 256) (take 11 (drop idx b))

unfoldable pub same_bytes : List ℕ → List ℕ → Bool
same_bytes [] [] = true
same_bytes [] (d ∷ t) = false
same_bytes (c ∷ s) [] = false
same_bytes (c ∷ s) (d ∷ t) = (c == d) && same_bytes s t

unfoldable pub at_clust : Geometry → (clust : ℕ) → Dir → Dir
at_clust geo clust x = record x { clust = clust; sect = clust_to_sect geo clust; idx = 0 }

-- As many rounds as the volume has entries.
abbrev pub entry_count : Geometry → ℕ
entry_count geo = (geo.clust_cnt + 1) * 2 ^ geo.clust_shift * 16

-- `dir_at_clust`, `dir_enter`
module _ {D : Type 0} where
  unfoldable pub dir_at_clust : ℕ → W D (Unit {0})
  dir_at_clust clust = do f ← volume; change (at_clust f.geo clust)

  unfoldable pub dir_enter : ℕ → W D (Unit {0})
  dir_enter clust = do
    f ← volume
    let c = if clust == 0 then f.geo.root_clust else clust
    change (λ x. record x { sclust = c })
    dir_at_clust c

  unfoldable pub dir_at_root : W D Bool
  dir_at_root = do
    x ← self
    f ← volume
    pure (
        (x.clust == f.geo.root_clust)
        && (x.sect == clust_to_sect f.geo f.geo.root_clust)
        && (x.idx == 0))

module _ {D : Type 0} (ops : DiskOps D) where
  -- Behind the last entry of a cluster.
  unfoldable pub next_clust_of : W D (Unit {0})
  next_clust_of = do
    x ← self
    (next, fl) ← lift (get_fat ops x.clust)
    if is_broken fl then throw broken else if is_last fl then throw eof else dir_at_clust next

  unfoldable pub dir_next : W D (Unit {0})
  dir_next = do
    change (λ x. record x { idx = (x.idx + entry_size) % 2 ^ 16 })
    x ← self
    if ltb x.idx 512 then pure tt else (do
      change (λ y. record y { idx = 0; sect = add32 y.sect 1 })
      y ← self
      f ← volume
      if not (bit_and y.sect f.geo.clust_msk == 0) then pure tt else next_clust_of)

  unfoldable pub dir_advance : (cnt : ℕ) → W D (Unit {0})
  dir_advance zero = pure tt
  dir_advance (suc n) = do dir_next; dir_advance n

  -- The buffer once the sector of the directory is in it. The entry is at `idx` of it.
  unfoldable pub load : W D Buf
  load = do x ← self; lift (update_buf ops x.sect); f ← volume; pure f.buf

  -- The loop of parse_lfn_name with `cnt` entries left; `b` is the buffer.
  unfoldable pub lfn_loop : (cnt : ℕ) → Buf → W D (Unit {0})
  lfn_loop zero b = pure tt
  lfn_loop (suc cnt) b = do
    x ← self
    let (chars, fine) = parse_frag b x.idx lfn_indices
    let alien = not (sfn_attr b x.idx == attr_lfn) || not (get8 b (x.idx + 13) == x.g_crc)
    if alien then throw broken else (do
      change (λ y. record y {
        g_buf = put_bytes y.g_buf (13 * cnt) chars;
        g_len = (y.g_len + length chars) % 2 ^ 16;
      })
      if not fine then throw broken else (do dir_next; c ← load; lfn_loop cnt c))

  unfoldable pub parse_lfn_name : W D (Unit {0})
  parse_lfn_name = do
    b ← load
    x ← self
    let seq = get8 b x.idx
    change (λ y. record y { g_crc = get8 b (y.idx + 13); g_len = 0 })
    if not (has_attr 0x40 seq)
        then throw broken
        else if ltb 20 (seq % 32)
        then throw broken
        else (do lfn_loop (seq % 32) b; y ← self; if leb y.g_len 255 then pure tt else throw broken)

  -- A long name that begins at the entry `here`.
  unfoldable pub search_long : (name : List ℕ) → (here : Loc) → W D (Option Loc)
  search_long name here = do
    parse_lfn_name
    x ← self
    f ← volume
    let alien = sfn_is_free f.buf x.idx || sfn_is_lfn f.buf x.idx
    let same = (x.g_len == length name) && same_bytes (take (length name) x.g_buf) name
    if alien || not (x.g_crc == get_crc (sfn_name f.buf x.idx))
        then throw broken
        else pure (if same then some here else none)

  -- One round of dir_search: where the entry begins, if it has the name.
  unfoldable pub search_entry : (name : List ℕ) → W D (Option Loc)
  search_entry name = do
    b ← load
    x ← self
    let here : Loc = record { sect = x.sect; idx = x.idx }
    let same = same_bytes (put_sfn_name name) (sfn_name b x.idx)
    if sfn_is_last b x.idx
        then throw eof
        else if sfn_is_free b x.idx
        then pure none
        else if sfn_is_lfn b x.idx
        then search_long name here
        else pure (if same then some here else none)

  unfoldable pub search_loop : (fuel : ℕ) (name : List ℕ) → W D Loc
  search_loop zero name = throw stuck
  search_loop (suc k) name = do
    r ← search_entry name
    elim r [ some loc ↦ pure loc | none ↦ (do dir_next; search_loop k name) ]

  unfoldable pub dir_search : (name : List ℕ) → W D Loc
  dir_search name = do
    x ← self
    dir_at_clust x.sclust
    f ← volume
    search_loop (entry_count f.geo) name
