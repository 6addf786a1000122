-- ===== src/Kheap/Tiles.antt =====
-- The blocks of src/mm/kheap.c tile the heap, and which of them are in use.
use beaner_os.Kheap.{Heap, header, heap_start, heap_size, init}
use beaner_os.Base.{
  ◌==◌, ℕ, ◌+◌, ◌≤◌, ◌≡◌, refl, ◌⊎◌, Bool, true, false, not, ◌&&◌, ◌||◌, [], ◌∷◌, arith,
}

-- The blocks lie one behind the other from `a` to `e`.
abbrev pub Tiles : (a e : ℕ) → Heap → Type 0
Tiles a e [] = a ≡ e
Tiles a e (b ∷ bs) = (b.addr ≡ a) × Tiles (a + header + b.size) e bs

-- The heap of the kernel.
abbrev pub IsHeap : Heap → Type 0
IsHeap = Tiles heap_start (heap_start + heap_size)

-- A block in use at `a`, of size `s`.
unfoldable pub in_use : (a s : ℕ) → Heap → Bool
in_use a s [] = false
in_use a s (b ∷ bs) = (not b.is_free && (b.addr == a) && (b.size == s)) || in_use a s bs

-- The heap starts as one free block.
pub init-IsHeap : IsHeap init × ((a s : ℕ) → in_use a s init ≡ false)
unfolding init in_use
init-IsHeap = (omega arith, λ a s. refl)

-- Blocks lie inside what they tile.
pub Tiles-le : (a e : ℕ) (h : Heap) → Tiles a e h → a ≤ e
Tiles-le a e [] t = omega arith
Tiles-le a e (b ∷ bs) t = omega (arith, Tiles-le (a + header + b.size) e bs t.1)

pub in_use-bounds :
    (a e p s : ℕ) (h : Heap) → Tiles a e h → in_use p s h ≡ true → (a ≤ p) × (p + header + s ≤ e)
unfolding in_use
in_use-bounds a e p s [] t u = cc
in_use-bounds a e p s (b ∷ bs) t u = ground (
  arith,
  Tiles-le (a + header + b.size) e bs t.1,
  in_use-bounds (a + header + b.size) e p s bs t.1,
)

-- In a tiled list of blocks two different blocks in use do not overlap, headers included.
pub in_use-disjoint :
    (a e p s q r : ℕ) (h : Heap)
    → Tiles a e h
    → in_use p s h ≡ true
    → in_use q r h ≡ true
    → ((p ≡ q) × (s ≡ r)) ⊎ (p + header + s ≤ q) ⊎ (q + header + r ≤ p)
unfolding in_use
in_use-disjoint a e p s q r [] t u v = cc
in_use-disjoint a e p s q r (b ∷ bs) t u v = ground (
  arith,
  in_use-disjoint (a + header + b.size) e p s q r bs t.1,
  in_use-bounds (a + header + b.size) e p s bs t.1,
  in_use-bounds (a + header + b.size) e q r bs t.1,
)
