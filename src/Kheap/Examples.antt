-- ===== src/Kheap/Examples.antt =====
-- The theorems on src/mm/kheap.c at concrete inputs.
use beaner_os.Base.{◌+◌, ◌-◌, ◌≡◌, refl, true, false, arith, [], ◌∷◌, some}
use beaner_os.Kheap.{
  Heap, heap_start, heap_size, header, init, kmalloc, kfree, alloc_in, round_up, coalesce, is_block,
  release,
}
use beaner_os.Kheap.Tiles.{IsHeap, in_use}
use beaner_os.Kheap.Alloc.{kmalloc_wraps}
use beaner_os.Kheap.Free.{Returned, kfree-Returned}

-- Two blocks in use, of 104 and 24 bytes, and the rest.
abbrev busy : Heap
busy =
    record { addr = heap_start; size = 104; is_free = false }
    ∷ record { addr = heap_start + 116; size = 24; is_free = false }
    ∷ record { addr = heap_start + 152; size = heap_size - 164; is_free = true }
    ∷ []

busy-IsHeap : IsHeap busy
busy-IsHeap = omega arith

-- The first of them given back.
abbrev after : Heap
after =
    record { addr = heap_start; size = 104; is_free = true }
    ∷ record { addr = heap_start + 116; size = 24; is_free = false }
    ∷ record { addr = heap_start + 152; size = heap_size - 164; is_free = true }
    ∷ []

kfree_test : kfree (heap_start + header) busy ≡ some after
unfolding kfree is_block release coalesce
kfree_test = refl

-- A gap that is large enough, but not to be split.
kmalloc_test : kmalloc 90 after ≡ some (heap_start + header, busy)
unfolding kmalloc round_up alloc_in
kmalloc_test = refl

kmalloc_wraps_example :
    (h : Heap) × (kmalloc 0xffff_ffff init ≡ some (heap_start + header, h))
    × (in_use heap_start 0 h ≡ true)
kmalloc_wraps_example = kmalloc_wraps 0xffff_ffff (omega arith) (omega arith)

kfree-Returned_example :
    (h : Heap) × (kfree (heap_start + header) busy ≡ some h) × Returned heap_start busy h
unfolding in_use
kfree-Returned_example = kfree-Returned heap_start 104 busy busy-IsHeap refl
