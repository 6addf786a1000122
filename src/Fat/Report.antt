-- ===== src/Fat/Report.antt =====
-- The names of the error codes of src/fs/fat.c, and fat_sync.
use beaner_os.Fat.State.{
  Err, nofat, broken, io, param, path, eof, denied, full, raw_flags, stuck, DiskOps, M,
}
use beaner_os.Fat.Cache.{sync_fs}
use beaner_os.Base.{ℕ, List, codes}

-- `fat_get_error`. A value of `flags` that is returned for an error is no code of its own.
unfoldable pub get_error : Err → List ℕ
get_error nofat = codes "FAT_ERR_NOFAT"
get_error broken = codes "FAT_ERR_BROKEN"
get_error io = codes "FAT_ERR_IO"
get_error param = codes "FAT_ERR_PARAM"
get_error path = codes "FAT_ERR_PATH"
get_error eof = codes "FAT_ERR_EOF"
get_error denied = codes "FAT_ERR_DENIED"
get_error full = codes "FAT_ERR_FULL"
get_error (raw_flags n) = codes "NULL"
get_error stuck = codes "NULL"

unfoldable pub fat_sync : {D : Type 0} → DiskOps D → M D (Unit {0})
fat_sync ops = sync_fs ops
