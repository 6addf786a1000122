-- ===== src/Fat/Mount/Volume.antt =====
-- A mount of src/fs/fat.c on a disk that holds a FAT32 volume.
use beaner_os.Fat.Mount.{
  Globals, Mounted, read_g_buf, check_g_buf, check_fat, get_part_lba, probe, is_info, geometry_of,
  find_fat_volume, fat_mount,
}
use beaner_os.Fat.Mount.Layout.{
  HasRoom, fits_fat32-lem, check_fat-fits, geometry_of-IsMounted, IsLayoutOf,
  geometry_of-IsLayoutOf,
}
use beaner_os.Fat.Bytes.{Buf, get8, get16, get32}
use beaner_os.Fat.State.{Fat, DiskOps, IsDevice, add32, ok}
use beaner_os.Fat.Cache.View.{Coherent}
use beaner_os.Fat.Dir.{same_bytes}
use beaner_os.Fat.Chain.Free.{IsMounted}
use beaner_os.Base.{
  ℕ, ◌≡◌, refl, true, false, some, length, ◌≤◌, ◌∙◌, List, ◌∷◌, ltb, ◌+◌, ◌*◌, ◌≢◌, ==-false_of_ne,
  arith, ==-refl, ap, [],
}

same_bytes_refl : (s : List ℕ) → same_bytes s s ≡ true
unfolding same_bytes
same_bytes_refl [] = refl
same_bytes_refl (c ∷ s) = rw (==-refl c, same_bytes_refl s) refl

find_fat_volume-first :
    (fat : ℕ) (name : List ℕ) (rest : List Mounted)
    → find_fat_volume (record { fat = fat; name = name } ∷ rest) name ≡ some fat
unfolding find_fat_volume
find_fat_volume-first fat name rest = rw (same_bytes_refl name) refl

-- The entry of an MBR.
get_part_lba-there :
    (b : Buf) (part lba : ℕ)
    → get16 b 510 ≡ 0xaa55
    → get8 b (446 + 16 * part + 4) ≡ 0x0c
    → get32 b (446 + 16 * part + 8) ≡ lba
    → get_part_lba b part ≡ some lba
unfolding get_part_lba
get_part_lba-there b part lba sig type start =
    let type_at : 450 + 16 * part ≡ 446 + 16 * part + 4 = omega arith in
    let start_at : 454 + 16 * part ≡ 446 + 16 * part + 8 = omega arith in
    rw (type_at, start_at, sig, type, start) refl

-- FsInfo: its signatures, a cluster to search from, and a count of free clusters, both known.
pub record IsInfo (b : Buf) : Type 0 where
  pub head : get32 b 0 ≡ 0x4161_5252
  pub body : get32 b 484 ≡ 0x6141_7272
  pub tail : get32 b 508 ≡ 0xaa55_0000
  pub next_known : get32 b 492 ≢ 0xffff_ffff
  pub free_known : get32 b 488 ≢ 0xffff_ffff

IsInfo-is_info : (b : Buf) → IsInfo b → is_info b ≡ true
unfolding is_info
IsInfo-is_info b v =
    rw
      (
        v.tail,
        v.head,
        v.body,
        ==-false_of_ne (get32 b 492) 0xffff_ffff v.next_known,
        ==-false_of_ne (get32 b 488) 0xffff_ffff v.free_known,
      )
      refl

-- None of the volumes is the one at `fat`.
abbrev pub IsUnlisted : (fat : ℕ) → List Mounted → Type 0
IsUnlisted fat [] = Unit
IsUnlisted fat (it ∷ rest) = (it.fat ≢ fat) × IsUnlisted fat rest

-- FsInfo is in the sector behind the boot sector.
info_at :
    (lba : ℕ) (b : Buf) → check_fat b ≡ ok true → HasRoom lba b → add32 lba (get16 b 48) ≡ lba + 1
info_at lba b fits room =
    rw (fits_fat32-lem b (check_fat-fits b fits)).1 (omega (arith, room.below, room.reserved))

module _ {D : Type 0} (sector : D → ℕ → Buf) where
  -- Partition `part` of the disk begins at `lba` and is FAT32: the whole disk is partition 0, or the
  -- disk has an MBR, whose entry of 16 bytes names type 0x0c and the first sector.
  pub data HoldsFat (d : D) : (part lba : ℕ) → Type 0 where
    whole : check_fat (sector d 0) ≡ ok true → HoldsFat d 0 0
    parted :
        (part lba : ℕ)
        → check_fat (sector d 0) ≡ ok false
        → get16 (sector d 0) 510 ≡ 0xaa55
        → get8 (sector d 0) (446 + 16 * part + 4) ≡ 0x0c
        → get32 (sector d 0) (446 + 16 * part + 8) ≡ lba
        → check_fat (sector d lba) ≡ ok true
        → HoldsFat d part lba

  -- `y` and `g` are what probe leaves of `x` and `f`, and what it has read.
  pub record Probed (lba : ℕ) (x : Globals) (f : Fat D) (y : Globals) (g : Fat D) : Type 0 where
    pub g_buf : y.g_buf ≡ sector f.disk lba
    pub mounts : y.g_fat_list ≡ x.g_fat_list
    pub same : (t : ℕ) → sector g.disk t ≡ sector f.disk t
    pub buf : g.buf ≡ f.buf

module _ {D : Type 0} {ops : DiskOps D} {sector : D → ℕ → Buf} (dev : IsDevice ops sector) where
  loaded : (s : ℕ) → Globals → Fat D → Globals
  loaded s x f = record x { g_buf = sector f.disk s }

  moved : (s : ℕ) → Globals → Fat D → Fat D
  moved s x f = record f { disk = (ops.read f.disk s x.g_buf).2 }

  read_g_buf-run :
      (s : ℕ) (x : Globals) (f : Fat D) → read_g_buf ops s x f ≡ (ok tt, loaded s x f, moved s x f)
  unfolding read_g_buf loaded moved
  read_g_buf-run s x f = rw (dev.read_ok f.disk s x.g_buf, dev.read_buf f.disk s x.g_buf) refl

  probe-whole :
      (x : Globals) (f : Fat D)
      → check_fat (sector f.disk 0) ≡ ok true
      → probe ops 0 x f ≡ (ok 0, loaded 0 x f, moved 0 x f)
  unfolding probe check_g_buf loaded
  probe-whole x f fits = rw (read_g_buf-run 0 x f) (rw fits refl)

  probe-parted :
      (part lba : ℕ) (x : Globals) (f : Fat D)
      → check_fat (sector f.disk 0) ≡ ok false
      → get_part_lba (sector f.disk 0) part ≡ some lba
      → check_fat (sector f.disk lba) ≡ ok true
      → probe ops part x f
        ≡ (ok lba, loaded lba (loaded 0 x f) (moved 0 x f), moved lba (loaded 0 x f) (moved 0 x f))
  unfolding probe check_g_buf loaded moved
  probe-parted part lba x f alien at fits = rw (read_g_buf-run 0 x f) (
      rw (alien, at)
        (rw (read_g_buf-run lba (loaded 0 x f) (moved 0 x f))
          (rw (dev.read_same f.disk 0 x.g_buf lba) (rw fits refl))))

  -- probe finds a partition that is there.
  pub probe-Probed :
      (part lba : ℕ) (x : Globals) (f : Fat D)
      → HoldsFat sector f.disk part lba
      → (y : Globals) × (g : Fat D) × (probe ops part x f ≡ (ok lba, y, g))
        × Probed sector lba x f y g
  unfolding loaded moved
  probe-Probed _ _ x f (whole fits) = (
    loaded 0 x f,
    moved 0 x f,
    probe-whole x f fits,
    record { g_buf = refl; mounts = refl; same = dev.read_same f.disk 0 x.g_buf; buf = refl },
  )
  probe-Probed _ _ x f (parted part lba alien sig type start fits) =
      let at = get_part_lba-there (sector f.disk 0) part lba sig type start in
      let y = loaded 0 x f in
      let g = moved 0 x f in
      (
        loaded lba y g,
        moved lba y g,
        probe-parted part lba x f alien at fits,
        record {
          g_buf = dev.read_same f.disk 0 x.g_buf lba;
          mounts = refl;
          same = λ t. dev.read_same g.disk lba y.g_buf t ∙ dev.read_same f.disk 0 x.g_buf t;
          buf = refl;
        },
      )

  HoldsFat-fits :
      (d : D) (part lba : ℕ) → HoldsFat sector d part lba → check_fat (sector d lba) ≡ ok true
  HoldsFat-fits d _ _ (whole fits) = fits
  HoldsFat-fits d _ _ (parted part lba alien sig type start fits) = fits

  short_name : (n : ℕ) → n ≤ 32 → ltb 32 n ≡ false
  short_name n short = ground arith

  -- The volume that fat_mount leaves where FsInfo, in sector `info`, is `b`.
  mounted : (lba info : ℕ) → Globals → Fat D → Fat D
  mounted lba info y g = record g {
    disk = (ops.read g.disk info y.g_buf).2;
    geo = geometry_of lba y.g_buf;
    last_used = get32 (sector g.disk info) 492;
    free_cnt = get32 (sector g.disk info) 488;
    sect = 0;
  }

  listed : (info fat : ℕ) (name : List ℕ) → Globals → Fat D → Globals
  listed info fat name y g = record {
    g_buf = sector g.disk info;
    g_fat_list = record { fat = fat; name = name } ∷ y.g_fat_list;
  }

  -- fat_mount behind probe.
  mount-run :
      (part lba fat : ℕ) (name : List ℕ) (x y : Globals) (f g : Fat D)
      → probe ops part x f ≡ (ok lba, y, g)
      → is_info (sector g.disk (add32 lba (get16 y.g_buf 48))) ≡ true
      → length name ≤ 32
      → let info = add32 lba (get16 y.g_buf 48) in
        fat_mount ops part fat name x f ≡ (ok tt, listed info fat name y g, mounted lba info y g)
  unfolding fat_mount loaded moved mounted listed
  mount-run part lba fat name x y f g found known short =
      let info = add32 lba (get16 y.g_buf 48) in
      rw found (
        rw (read_g_buf-run info y (record g { geo = geometry_of lba y.g_buf }))
          (rw (known, short_name (length name) short) refl))

  -- What a mounted volume is: the driver's invariants hold, it is found by its name, and the counts
  -- and the layout are those of the disk.
  pub record IsMount (lba fat : ℕ) (name : List ℕ) (x : Globals) (f : Fat D) (y : Globals)
      (g : Fat D) : Type 0 where
    pub mounted : IsMounted g.geo
    pub coherent : Coherent sector g
    pub layout : IsLayoutOf lba (sector f.disk lba) g.geo
    pub last_used : g.last_used ≡ get32 (sector f.disk (lba + 1)) 492
    pub free_cnt : g.free_cnt ≡ get32 (sector f.disk (lba + 1)) 488
    pub same : (t : ℕ) → sector g.disk t ≡ sector f.disk t
    pub list : y.g_fat_list ≡ record { fat = fat; name = name } ∷ x.g_fat_list
    pub found : find_fat_volume y.g_fat_list name ≡ some fat

  -- Let the device work, partition `part` begin at `lba` and be FAT32, the whole disk or an entry
  -- of the MBR, the reserved sectors hold FsInfo with its signatures and known counts, the tables
  -- end below 2 ^ 32, no volume at that address be mounted, and the name have at most 32
  -- characters. Then `fat_mount` succeeds and changes no sector: the size of a cluster, the count
  -- of clusters, the sectors of FsInfo, of the tables in use and of the data, and the cluster of
  -- the root are those that the fields of the boot sector give, with bit 7 of the flags as
  -- mirroring; the tables and FsInfo lie apart behind sector 0, the counts are those of FsInfo,
  -- the cache is coherent, and the volume is the first of the list, found by its name.
  pub fat_mount-IsMount :
      (part lba fat : ℕ) (name : List ℕ) (x : Globals) (f : Fat D)
      → HoldsFat sector f.disk part lba
      → HasRoom lba (sector f.disk lba)
      → IsInfo (sector f.disk (lba + 1))
      → IsUnlisted fat x.g_fat_list
      → length name ≤ 32
      → length f.buf ≡ 512
      → (y : Globals) × (g : Fat D) × (fat_mount ops part fat name x f ≡ (ok tt, y, g))
        × IsMount lba fat name x f y g
  unfolding mounted listed
  fat_mount-IsMount part lba fat name x f holds room known unlisted short size =
      let (y, g, found, p) = probe-Probed part lba x f holds in
      let fits = HoldsFat-fits f.disk part lba holds in
      let info = add32 lba (get16 y.g_buf 48) in
      let at : info ≡ lba + 1 = rw p.g_buf (info_at lba (sector f.disk lba) fits room) in
      let there : sector g.disk info ≡ sector f.disk (lba + 1) =
        p.same info ∙ ap (sector f.disk) at in
      (
        listed info fat name y g,
        mounted lba info y g,
        mount-run part lba fat name x y f g found
            (rw there (IsInfo-is_info (sector f.disk (lba + 1)) known)) short,
        record {
          mounted = rw p.g_buf (
              geometry_of-IsMounted lba (sector f.disk lba)
                (check_fat-fits (sector f.disk lba) fits) room);
          coherent = record { size = rw p.buf size; clean = λ _ nz. absurd (nz refl) };
          layout = rw p.g_buf (geometry_of-IsLayoutOf lba (sector f.disk lba) fits room);
          last_used = ap (λ b. get32 b 492) there;
          free_cnt = ap (λ b. get32 b 488) there;
          same = λ t. dev.read_same g.disk info y.g_buf t ∙ p.same t;
          list = ap (λ l. record { fat = fat; name = name } ∷ l) p.mounts;
          found = find_fat_volume-first fat name y.g_fat_list;
        },
      )
