-- ===== src/Fat/Mount.antt =====
-- Mounting in src/fs/fat.c: the boot sector, FsInfo, and the list of mounted volumes.
pub mod Layout
pub mod Volume
pub mod Umount
use beaner_os.Fat.Bytes.{Buf, get8, get16, get32}
use beaner_os.Fat.State.{DiskOps, Geometry, Res, ok, err, io, param, nofat, stuck, add32, sub32}
use beaner_os.Fat.Over.{T, pure, throw, ◌>>=◌, ◌>>◌, self, change, change_volume, lift}
use beaner_os.Fat.Cache.{sync_fs}
use beaner_os.Fat.Dir.{same_bytes}
use beaner_os.Base.{
  ℕ, List, ◌∷◌, [], ltb, leb, ◌==◌, if◌then◌else◌, length, take, drop, zero, suc, ◌+◌, ◌*◌, ◌/◌,
  ◌%◌, ◌^◌, Bool, false, not, ◌&&◌, ◌||◌, Option, none, some, map,
}

-- A volume of `g_fat_list`: the address of its `Fat`, and its name.
pub record Mounted : Type 0 where
  pub fat : ℕ
  pub name : List ℕ

-- `g_buf` and `g_fat_list`.
pub record Globals : Type 0 where
  pub g_buf : Buf
  pub g_fat_list : List Mounted

-- `FAT32   `
abbrev pub fat32_name : List ℕ
fat32_name = b'F' ∷ b'A' ∷ b'T' ∷ b'3' ∷ b'2' ∷ b' ' ∷ b' ' ∷ b' ' ∷ []

-- The start of partition `part`, of an MBR that has it as FAT32.
unfoldable pub get_part_lba : Buf → (part : ℕ) → Option ℕ
get_part_lba b part =
    if not (get16 b 510 == 0xaa55)
    then none
    else if not (get8 b (450 + 16 * part) == 0x0c)
    then none
    else some (get32 b (454 + 16 * part))

-- The tests of check_fat before the count of clusters.
unfoldable pub fits_fat32 : Buf → Bool
fits_fat32 b =
    ((get8 b 0 == 0xeb) || (get8 b 0 == 0xe9))
    && (get8 b 16 == 2)
    && (get16 b 17 == 0)
    && (get16 b 19 == 0)
    && (get16 b 22 == 0)
    && (get16 b 48 == 1)
    && same_bytes (map (λ c. c % 256) (take 8 (drop 82 b))) fat32_name
    && (get16 b 11 == 512)
    && (not (get16 b 40 / 2 ^ 7 % 2 == 0) || leb (get16 b 40 % 16) 1)

-- The sectors behind the tables, of uint32_t.
unfoldable pub data_sects : Buf → ℕ
data_sects b = sub32 (get32 b 32) ((get16 b 14 + get8 b 16 * get32 b 36) % 2 ^ 32)

-- A boot sector without a cluster size is divided by 0.
unfoldable pub check_fat : Buf → Res Bool
check_fat b =
    if not (fits_fat32 b)
    then ok false
    else if get8 b 13 == 0
    then err stuck
    else ok (leb 65525 (data_sects b / get8 b 13))

-- The number of zero bits below the lowest one, `__builtin_ctz`, of a number of `width` bits.
unfoldable pub ctz : (width n : ℕ) → ℕ
ctz zero n = 0
ctz (suc k) n = if n % 2 == 0 then suc (ctz k (n / 2)) else 0

-- What fat_mount takes from the boot sector at `lba`.
unfoldable pub geometry_of : (lba : ℕ) → Buf → Geometry
geometry_of lba b =
    let mirror = not (get16 b 40 / 2 ^ 7 % 2 == 0) in
    let use_first = get16 b 40 % 2 == 0 in
    let fat_0 = add32 lba (get16 b 14) in
    let fat_1 = add32 (add32 lba (get16 b 14)) (get32 b 36) in
    record {
      clust_shift = ctz 8 (get8 b 13);
      clust_msk = sub32 (get8 b 13) 1;
      clust_cnt = get32 b 36 * 128 % 2 ^ 32;
      info_sect = add32 lba (get16 b 48);
      fat_sect0 = if use_first then fat_0 else fat_1;
      fat_sect1 = if mirror then (if use_first then fat_1 else fat_0) else 0;
      data_sect = add32 (add32 lba (get16 b 14)) (get8 b 16 * get32 b 36 % 2 ^ 32);
      root_clust = get32 b 44;
    }

-- The signatures of FsInfo, and counts that are known.
unfoldable pub is_info : Buf → Bool
is_info b =
    (get32 b 508 == 0xaa55_0000)
    && (get32 b 0 == 0x4161_5252)
    && (get32 b 484 == 0x6141_7272)
    && not (get32 b 492 == 0xffff_ffff)
    && not (get32 b 488 == 0xffff_ffff)

-- The first volume of that name.
unfoldable pub find_fat_volume : List Mounted → (name : List ℕ) → Option ℕ
find_fat_volume [] name = none
find_fat_volume (it ∷ rest) name =
    let found = find_fat_volume rest name in if same_bytes name it.name then some it.fat else found

-- The list without the volume at `fat`, if it is in it.
unfoldable pub unlink_volume : List Mounted → (fat : ℕ) → Option (List Mounted)
unlink_volume [] fat = none
unlink_volume (it ∷ rest) fat =
    let left = unlink_volume rest fat in
    if it.fat == fat then some rest else elim left [ none ↦ none | some l ↦ some (it ∷ l) ]

module _ {D : Type 0} (ops : DiskOps D) where
  -- `ops->read(g_buf, s)`. The device is that of the volume that is about to be mounted.
  unfoldable pub read_g_buf : (s : ℕ) → T Globals D (Unit {0})
  read_g_buf s x f =
      let (done, b, d) = ops.read f.disk s x.g_buf in
      (if done then ok tt else err io, record x { g_buf = b }, record f { disk = d })

  unfoldable pub check_g_buf : T Globals D Bool
  check_g_buf x f = (check_fat x.g_buf, x, f)

  -- `*lba`, where probe succeeds.
  unfoldable pub probe : (part : ℕ) → T Globals D ℕ
  probe part = do
    read_g_buf 0
    whole ← check_g_buf
    x ← self
    if whole
        then (if part == 0 then pure 0 else throw nofat)
        else elim (get_part_lba x.g_buf part) [
          | none ↦ throw nofat
          | some lba ↦ (do
            read_g_buf lba
            fits ← check_g_buf
            if fits then pure lba else throw nofat)
        ]

  unfoldable pub fat_probe : (part : ℕ) → T Globals D (Unit {0})
  fat_probe part = do _ ← probe part; pure tt

  -- `fat` is the address of the `Fat`. fat_mount leaves `flags` and `buf` of it as they were.
  -- The program mounts a `Fat` that is not in the list; of one that is, the code makes the list a ring.
  unfoldable pub fat_mount : (part fat : ℕ) (name : List ℕ) → T Globals D (Unit {0})
  fat_mount part fat name = do
    lba ← probe part
    x ← self
    change_volume (λ f. record f { geo = geometry_of lba x.g_buf })
    read_g_buf (add32 lba (get16 x.g_buf 48))
    y ← self
    if not (is_info y.g_buf) then throw nofat else (do
      change_volume (λ f. record f { last_used = get32 y.g_buf 492; free_cnt = get32 y.g_buf 488 })
      if ltb 32 (length name) then throw param else (do
        change_volume (λ f. record f { sect = 0 })
        change (λ g. record g { g_fat_list = record { fat = fat; name = name } ∷ g.g_fat_list })))

  unfoldable pub fat_umount : (fat : ℕ) → T Globals D (Unit {0})
  fat_umount fat = do
    x ← self
    elim (unlink_volume x.g_fat_list fat) [
      | none ↦ throw param
      | some rest ↦ (do change (λ g. record g { g_fat_list = rest }); lift (sync_fs ops))
    ]
