-- ===== src/Fat/Table.antt =====
-- The allocation table of src/fs/fat.c: get_fat, put_fat2 and put_fat.

pub mod Entries
pub mod Put
pub mod Get
pub mod Still
use beaner_os.Base.{
  ℕ, Bool, Option, ◌/◌, ◌*◌, true, false, if◌then◌else◌, ◌^◌, ◌%◌, ltb, leb, ◌==◌, ◌+◌, ◌&&◌, none,
  some,
}
use beaner_os.Fat.Bytes.{get32, put32}
use beaner_os.Fat.State.{DiskOps, M, ok, err, broken, pure, Res, ◌>>=◌, ◌>>◌, get, modify, add32}
use beaner_os.Fat.Cache.{update_buf}

-- The combinations of `CLUST_` bits that `get_fat` gives out; `last` is CLUST_USED | CLUST_LAST.
pub data ClustFlags : Type 0 where
  free used last bad : ClustFlags

-- `flags & (CLUST_BAD | CLUST_FREE)`
abbrev pub is_broken : ClustFlags → Bool
is_broken free = true
is_broken used = false
is_broken last = false
is_broken bad = true

abbrev pub is_free : ClustFlags → Bool
is_free free = true
is_free used = false
is_free last = false
is_free bad = false

abbrev pub is_last : ClustFlags → Bool
is_last free = false
is_last used = false
is_last last = true
is_last bad = false

-- The tests on a 28-bit entry.
unfoldable pub classify : (cnt val : ℕ) → Option ClustFlags
classify cnt val =
    if val == 0
    then some free
    else if val == 0x0fff_fff7
    then some bad
    else if leb 0x0fff_fff8 val
    then some last
    else if leb 2 val && ltb val cnt
    then some used
    else none

-- The entry `val` and its flags, or FAT_ERR_BROKEN.
abbrev pub entry_result : ℕ → Option ClustFlags → Res (ℕ × ClustFlags)
entry_result val none = err broken
entry_result val (some cf) = ok (val, cf)

-- `(old & 0xf0000000) | (val & 0x0fffffff)` of two uint32_t.
unfoldable pub merge : (old val : ℕ) → ℕ
merge old val = old / 2 ^ 28 % 16 * 2 ^ 28 + val % 2 ^ 28

-- `items[idx]` of the buffer, as 128 uint32_t.
abbrev pub item : ℕ → ℕ
item clust = 4 * (clust % 128)

module _ {D : Type 0} (ops : DiskOps D) where
  unfoldable pub get_fat : ℕ → M D (ℕ × ClustFlags)
  get_fat clust = do
    f ← get
    update_buf ops (add32 f.geo.fat_sect0 (clust / 128))
    g ← get
    let val = get32 g.buf (item clust) % 2 ^ 28
    λ h. (entry_result val (classify g.geo.clust_cnt val), h)

  unfoldable pub put_fat2 : (fat_sect clust val : ℕ) → M D (Unit {0})
  put_fat2 fat_sect clust val = do
    update_buf ops (add32 fat_sect (clust / 128))
    modify (λ f. record f {
      buf = put32 f.buf (item clust) (merge (get32 f.buf (item clust)) val);
      buf_dirty = true;
    })

  unfoldable pub put_fat : (clust val : ℕ) → M D (Unit {0})
  put_fat clust val = do
    f ← get
    if f.geo.fat_sect1 == 0 then pure tt else put_fat2 f.geo.fat_sect1 clust val
    g ← get
    put_fat2 g.geo.fat_sect0 clust val
