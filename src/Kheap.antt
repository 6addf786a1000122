-- ===== src/Kheap.antt =====
-- The kernel heap, src/mm/kheap.c: a list of blocks, each behind a header of 12 bytes.
pub mod Tiles
pub mod Alloc
pub mod Free
mod Examples
use beaner_os.Base.{
  leb, ◌==◌, if◌then◌else◌, ℕ, ◌+◌, ◌-◌, ◌*◌, ◌/◌, ◌%◌, ◌^◌, Bool, true, false, ◌&&◌, ◌||◌, Option,
  none, some, List, [], ◌∷◌,
}

-- `heap_block_t` at its address. `next` is the order of the list.
pub record Block : Type 0 where
  pub addr : ℕ
  pub size : ℕ
  pub is_free : Bool

abbrev pub heap_start : ℕ
heap_start = 0x0020_0000

abbrev pub heap_size : ℕ
heap_size = 0x0010_0000

-- `sizeof(heap_block_t)` on i386.
abbrev pub header : ℕ
header = 12

-- The blocks from `heap_head` on; none before `kheap_init`.
abbrev pub Heap : Type 0
Heap = List Block

unfoldable pub init : Heap
init = record { addr = heap_start; size = heap_size - header; is_free = true } ∷ []

-- `(size + 7) & ~7` of a uint32_t.
unfoldable pub round_up : ℕ → ℕ
round_up size = (size + 7) % 2 ^ 32 / 8 * 8

-- The block that is handed out.
abbrev pub taken : Block → (size : ℕ) → Block
taken b size = record { addr = b.addr; size = size; is_free = false }

-- The block behind it, where `b` is split.
abbrev pub rest_of : Block → (size : ℕ) → Block
rest_of b size = record {
  addr = (b.addr + header + size) % 2 ^ 32;
  size = b.size - size - header;
  is_free = true;
}

-- `current->is_free && current->size >= size`
abbrev pub fits : (size : ℕ) → Block → Bool
fits size b = b.is_free && leb size b.size

-- `current->size >= size + sizeof(heap_block_t) + 8`
abbrev pub splits : (size : ℕ) → Block → Bool
splits size b = leb ((size + header + 8) % 2 ^ 32) b.size

-- A block in front of what the rest of the walk gives.
abbrev pub behind : Block → Option (ℕ × Heap) → Option (ℕ × Heap)
behind b none = none
behind b (some (p, bs)) = some (p, b ∷ bs)

-- The walk of kmalloc. `none` is NULL, and the heap as it was.
unfoldable pub alloc_in : (size : ℕ) → Heap → Option (ℕ × Heap)
alloc_in size [] = none
alloc_in size (b ∷ bs) =
    let rest = alloc_in size bs in
    if fits size b
    then (if splits size b
        then some (b.addr + header, taken b size ∷ rest_of b size ∷ bs)
        else some (b.addr + header, taken b b.size ∷ bs))
    else behind b rest

unfoldable pub kmalloc : ℕ → Heap → Option (ℕ × Heap)
kmalloc size h = if size == 0 then none else alloc_in (round_up size) h

-- Is there a block at `addr`?
unfoldable pub is_block : (addr : ℕ) → Heap → Bool
is_block addr [] = false
is_block addr (b ∷ bs) = (b.addr == addr) || is_block addr bs

-- `block->is_free = 1;` of the block at `addr`.
unfoldable pub release : (addr : ℕ) → Heap → Heap
release addr [] = []
release addr (b ∷ bs) =
    (if b.addr == addr then record b { is_free = true } else b) ∷ release addr bs

abbrev pub merge : Block → Block → Block
merge b c = record b { size = (b.size + header + c.size) % 2 ^ 32 }

-- The second loop of kfree, at block `b` with `bs` behind it.
unfoldable pub coalesce : Block → Heap → Heap
coalesce b [] = b ∷ []
coalesce b (c ∷ bs) =
    let both = b.is_free && c.is_free in
    let rest = coalesce (if both then merge b c else c) bs in if both then rest else b ∷ rest

abbrev pub coalesce_all : Heap → Heap
coalesce_all [] = []
coalesce_all (b ∷ bs) = coalesce b bs

-- `none` where `ptr` is no block's: the program then writes outside the headers. NULL is 0.
unfoldable pub kfree : (ptr : ℕ) → Heap → Option Heap
kfree ptr h =
    if ptr == 0
    then some h
    else if is_block (ptr - header) h
    then some (coalesce_all (release (ptr - header) h))
    else none
