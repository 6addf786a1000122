-- ===== src/Fat/Entries.antt =====
-- The theorems on names and mounting of src/fs/fat.c at concrete inputs.
use beaner_os.Fat.Examples.{Ram, ram, ram-IsDevice, volume, volume-Coherent}
use beaner_os.Fat.Bytes.{Buf, get16, get32, put16, put32}
use beaner_os.Fat.State.{Fat, ok}
use beaner_os.Fat.Name.{put_lfn_name_frag, parse_frag, lfn_indices}
use beaner_os.Fat.Name.Long.{parse_frag-put_lfn_name_frag}
use beaner_os.Fat.Mount.{
  Globals, Mounted, fat_mount, fat_umount, check_fat, fits_fat32, data_sects, fat32_name,
}
use beaner_os.Fat.Mount.Layout.{HasRoom}
use beaner_os.Fat.Mount.Volume.{whole, IsInfo, IsMount, fat_mount-IsMount}
use beaner_os.Fat.Mount.Umount.{first, Unlinked, fat_umount-Flushed}
use beaner_os.Fat.Cache.Sync.{Flushed}
use beaner_os.Fat.Dir.{same_bytes}
use beaner_os.Fat.File.{put_bytes}
use beaner_os.Base.{ℕ, ◌≡◌, refl, arith, List, [], ◌∷◌, true, replicate, ◌==◌, if◌then◌else◌, codes}

-- `a.TXT`
abbrev a_txt : List ℕ
a_txt = b'a' ∷ b'.' ∷ b'T' ∷ b'X' ∷ b'T' ∷ []

parse_frag-put_lfn_name_frag_example :
    parse_frag (put_lfn_name_frag (replicate 64 0) 32 a_txt) 32 lfn_indices ≡ (a_txt, true)
parse_frag-put_lfn_name_frag_example =
    parse_frag-put_lfn_name_frag (replicate 64 0) 32 a_txt (omega arith)
      (
        omega arith,
        omega arith,
        (
          omega arith,
          omega arith,
          (omega arith, omega arith, (omega arith, omega arith, (omega arith, omega arith, tt))),
        ),
      )
      (omega arith)

-- A boot sector: clusters of one sector, 32 reserved ones, two tables of 600 that mirror each
-- other, 70000 sectors in all.
abbrev boot : Buf
boot =
    let b1 = put_bytes (put_bytes (replicate 512 0) 0 (0xeb ∷ [])) 82 fat32_name in
    let b2 = put16 (put16 (put_bytes b1 13 (1 ∷ 32 ∷ 0 ∷ 2 ∷ [])) 11 512) 48 1 in
    put32 (put32 (put32 (put16 b2 40 0x80) 32 70_000) 36 600) 44 2

abbrev info : Buf
info =
    let b1 = put32 (put32 (replicate 512 0) 0 0x4161_5252) 484 0x6141_7272 in
    put32 (put32 (put32 b1 488 65_000) 492 7) 508 0xaa55_0000

abbrev disk : Ram
disk s = if s == 0 then boot else if s == 1 then info else replicate 512 0

abbrev pub globals : Globals
globals = record { g_buf = replicate 512 0; g_fat_list = [] }

abbrev pub fresh : Fat Ram
fresh = record volume { disk = disk }

boot_test : check_fat boot ≡ ok true
unfolding check_fat put_bytes put16 put32 fits_fat32 get16 same_bytes data_sects get32
boot_test = refl

info-IsInfo : IsInfo info
unfolding put32 get32
info-IsInfo = record {
  head = refl;
  body = refl;
  tail = refl;
  next_known = omega arith;
  free_known = omega arith;
}

abbrev listed : Globals
listed = record { g_buf = replicate 512 0; g_fat_list = record { fat = 5; name = a_txt } ∷ [] }

fat_umount-Flushed_example :
    (left : List Mounted) × (g : Fat Ram) × (fat_umount ram 5 listed volume
      ≡ (ok tt, record listed { g_fat_list = left }, g))
    × Unlinked 5 listed.g_fat_list left
    × Flushed ram-IsDevice volume g
fat_umount-Flushed_example =
    fat_umount-Flushed ram-IsDevice 5 listed volume
      (first (record { fat = 5; name = a_txt }) [] refl) (omega arith) volume-Coherent

boot-HasRoom : HasRoom 0 boot
unfolding get16 get32 put_bytes put16 put32
boot-HasRoom = record { reserved = omega arith; below = omega arith }

fat_mount-IsMount_example :
    (y : Globals) × (g : Fat Ram) × (fat_mount ram 0 5 a_txt globals fresh ≡ (ok tt, y, g))
    × IsMount ram-IsDevice 0 5 a_txt globals fresh y g
unfolding put32 put16 put_bytes
fat_mount-IsMount_example =
    fat_mount-IsMount ram-IsDevice 0 0 5 a_txt globals fresh (whole boot_test) boot-HasRoom
      info-IsInfo tt (omega arith) refl

-- By the name that the kernel gives it.
pub mount_root :
    (y : Globals) × (g : Fat Ram) × (fat_mount ram 0 5 (codes "root") globals fresh ≡ (ok tt, y, g))
    × IsMount ram-IsDevice 0 5 (codes "root") globals fresh y g
unfolding put32 put16 put_bytes
mount_root =
    fat_mount-IsMount ram-IsDevice 0 0 5 (codes "root") globals fresh (whole boot_test) boot-HasRoom
      info-IsInfo tt (omega arith) refl
