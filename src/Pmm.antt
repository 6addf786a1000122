-- ===== src/Pmm.antt =====
-- The physical frame allocator, src/mm/pmm.c. A frame is named by its address, a multiple of 4096.
mod Bits
pub mod Window
pub mod Alloc
pub mod Init
mod Examples
use beaner_os.Base.{
  ltb, ◌==◌, if◌then◌else◌, get_or, set, replicate, ℕ, zero, suc, ◌+◌, ◌-◌, ◌*◌, ◌/◌, ◌%◌, ◌^◌,
  bit_and, bit_or, Bool, not, List,
}

-- The file's static variables; `bitmap` is the 32768 bytes of `frame_bitmap`.
pub record Pmm : Type 0 where
  pub bitmap : List ℕ
  pub total_frames : ℕ
  pub free_frames : ℕ
  pub first_frame : ℕ

abbrev pub bitmap_size : ℕ
bitmap_size = 32768

abbrev pub frame_size : ℕ
frame_size = 4096

-- `frame_bitmap[idx]`, a uint8_t.
abbrev pub byte : List ℕ → ℕ → ℕ
byte bitmap idx = get_or bitmap idx 0 % 256

-- `b | (1 << off)`, `b & ~(1 << off)` and `b & (1 << off)`; `~` is on a 32-bit int.
unfoldable pub set_bit : (b off : ℕ) → ℕ
set_bit b off = bit_or b (2 ^ off) % 256

unfoldable pub clear_bit : (b off : ℕ) → ℕ
clear_bit b off = bit_and b (0xffff_ffff - 2 ^ off) % 256

unfoldable pub test_bit : (b off : ℕ) → Bool
test_bit b off = not (bit_and b (2 ^ off) == 0)

-- A byte of the bitmap replaced.
abbrev pub put_byte : Pmm → (idx b : ℕ) → Pmm
put_byte p idx b = record p { bitmap = set p.bitmap idx b }

unfoldable pub set_frame : (addr : ℕ) → Pmm → Pmm
set_frame addr p =
    let frame = addr / frame_size in
    put_byte p (frame / 8) (set_bit (byte p.bitmap (frame / 8)) (frame % 8))

unfoldable pub clear_frame : (addr : ℕ) → Pmm → Pmm
clear_frame addr p =
    let frame = addr / frame_size in
    put_byte p (frame / 8) (clear_bit (byte p.bitmap (frame / 8)) (frame % 8))

unfoldable pub test_frame : (addr : ℕ) → Pmm → Bool
test_frame addr p =
    let frame = addr / frame_size in test_bit (byte p.bitmap (frame / 8)) (frame % 8)

-- The address of frame `f`, a uint32_t.
abbrev pub frame_addr : ℕ → ℕ
frame_addr f = f * frame_size % 2 ^ 32

-- The loop of find_free_frame with `n` rounds left, at frame `f`.
unfoldable pub find_from : (n f : ℕ) → Pmm → ℕ
find_from zero f p = 0
find_from (suc n) f p =
    let rest = find_from n (f + 1) p in if test_frame (frame_addr f) p then rest else frame_addr f

unfoldable pub find_free_frame : Pmm → ℕ
find_free_frame p = find_from p.total_frames p.first_frame p

-- `for (i = 0; i < mem_low; i += FRAME_SIZE) set_frame(i);` at `i`. One round of fuel for each frame
-- below `mem_low`.
unfoldable pub mark_low : (fuel i mem_low : ℕ) → Pmm → Pmm
mark_low zero i mem_low p = p
mark_low (suc k) i mem_low p =
    let rest = mark_low k (i + frame_size) mem_low (set_frame i p) in
    if ltb i mem_low then rest else p

unfoldable pub init : (mem_low mem_high : ℕ) → Pmm
init mem_low mem_high =
    let first = (mem_low + frame_size - 1) % 2 ^ 32 / frame_size in
    let room = (mem_high / frame_size + 2 ^ 32 - first) % 2 ^ 32 in
    let total = if ltb (bitmap_size * 8) room then bitmap_size * 8 else room in
    mark_low (mem_low / frame_size + 1) 0 mem_low (record {
      bitmap = replicate bitmap_size 0;
      total_frames = total;
      free_frames = total;
      first_frame = first;
    })

-- NULL is 0.
unfoldable pub alloc_frame : Pmm → ℕ × Pmm
alloc_frame p =
    let addr = find_free_frame p in
    let q = set_frame addr p in
    if p.free_frames == 0
    then (0, p)
    else if addr == 0
    then (0, p)
    else (addr, record q { free_frames = p.free_frames - 1 })

unfoldable pub free_frame : (addr : ℕ) → Pmm → Pmm
free_frame addr p =
    let q = clear_frame addr p in
    if test_frame addr p then record q { free_frames = (p.free_frames + 1) % 2 ^ 32 } else p

unfoldable pub get_total_frames : Pmm → ℕ
get_total_frames p = p.total_frames

unfoldable pub get_free_frames : Pmm → ℕ
get_free_frames p = p.free_frames
