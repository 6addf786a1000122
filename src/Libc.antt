-- ===== src/Libc.antt =====
-- The memory functions of the C library, src/libc/string. Memory is a function from addresses to
-- bytes, and no buffer reaches the end of the address space.
pub mod Move
pub mod Compare
pub mod Strings
pub mod Printf
mod Examples
mod Texts
use beaner_os.Base.{ℕ, zero, suc, ◌+◌, ◌%◌, ltb, ◌==◌, if◌then◌else◌, ℤ, pos, negsuc}

abbrev pub Mem : Type 0
Mem = ℕ → ℕ

-- `*(unsigned char*)a = v`
abbrev pub store : (a v : ℕ) → Mem → Mem
store a v m x = if x == a then v else m x

-- `for (...; i < size; i++) dst[i] = src[i];` with `n` rounds left.
unfoldable pub copy_up : (dst src i n : ℕ) → Mem → Mem
copy_up dst src i zero m = m
copy_up dst src i (suc n) m = copy_up dst src (i + 1) n (store (dst + i) (m (src + i)) m)

-- `for (i = size; i != 0; i--) dst[i-1] = src[i-1];`
unfoldable pub copy_down : (dst src n : ℕ) → Mem → Mem
copy_down dst src zero m = m
copy_down dst src (suc n) m = copy_down dst src n (store (dst + n) (m (src + n)) m)

-- The `restrict` parameters ask for buffers that lie apart; on others the program does not say what this does.
unfoldable pub memcpy : (dst src size : ℕ) → Mem → Mem
memcpy dst src size = copy_up dst src 0 size

unfoldable pub memmove : (dst src size : ℕ) → Mem → Mem
memmove dst src size m = if ltb dst src then copy_up dst src 0 size m else copy_down dst src size m

unfoldable pub fill : (buf value i n : ℕ) → Mem → Mem
fill buf value i zero m = m
fill buf value i (suc n) m = fill buf value (i + 1) n (store (buf + i) (value % 256) m)

-- `value` as the bits of the int.
unfoldable pub memset : (buf value size : ℕ) → Mem → Mem
memset buf value size = fill buf value 0 size

unfoldable pub compare_from : (a b i n : ℕ) → Mem → ℤ
compare_from a b i zero m = pos 0
compare_from a b i (suc n) m =
    let rest = compare_from a b (i + 1) n m in
    if ltb (m (a + i)) (m (b + i))
    then negsuc 0
    else if ltb (m (b + i)) (m (a + i))
    then pos 1
    else rest

unfoldable pub memcmp : (a b size : ℕ) → Mem → ℤ
memcmp a b size = compare_from a b 0 size
