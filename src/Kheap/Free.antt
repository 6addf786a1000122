-- ===== src/Kheap/Free.antt =====
-- kfree of src/mm/kheap.c.
use mathlib.Core.Path.{subst}
use beaner_os.Kheap.{
  Block, Heap, header, heap_start, heap_size, round_up, is_block, release, merge, coalesce,
  coalesce_all, kfree, kmalloc,
}
use beaner_os.Kheap.Tiles.{Tiles, Tiles-le, IsHeap, in_use}
use beaner_os.Kheap.Alloc.{Outcome, kmalloc-Outcome}
use beaner_os.Base.{
  ◌==◌, ==_iff, ==-false_of_ne, ==-refl, Bool-cases, ℕ, ◌+◌, ◌-◌, ◌^◌, ◌<◌, ◌≡◌, refl, ◌∙◌, inl,
  inr, Bool, true, false, not, ◌&&◌, some, [], ◌∷◌, arith,
}

abbrev head_free : Heap → Bool
head_free [] = false
head_free (b ∷ bs) = b.is_free

-- No two free blocks are neighbours.
abbrev pub Joined : Heap → Type 0
Joined [] = Unit
Joined (b ∷ bs) = ((b.is_free && head_free bs) ≡ false) × Joined bs

in_use-release : (a q s : ℕ) (h : Heap) → in_use q s (release a h) ≡ (not (a == q) && in_use q s h)
unfolding in_use release
in_use-release a q s [] = ground arith
in_use-release a q s (b ∷ bs) = ground (arith, in_use-release a q s bs)

release-Tiles : (p a e : ℕ) (h : Heap) → Tiles a e h → Tiles a e (release p h)
unfolding release
release-Tiles p a e [] t = t
release-Tiles p a e (b ∷ bs) t = elim (Bool-cases (b.addr == p)) [
  | inl hit ↦ rw hit (t.0, release-Tiles p (a + header + b.size) e bs t.1)
  | inr miss ↦ rw miss (t.0, release-Tiles p (a + header + b.size) e bs t.1)
]

is_block_of_in_use : (q s : ℕ) (h : Heap) → in_use q s h ≡ true → is_block q h ≡ true
unfolding in_use is_block
is_block_of_in_use q s [] u = cc
is_block_of_in_use q s (b ∷ bs) u = ground (arith, is_block_of_in_use q s bs)

in_use-coalesce :
    (q s : ℕ) (b : Block) (bs : Heap) → in_use q s (coalesce b bs) ≡ in_use q s (b ∷ bs)
unfolding in_use coalesce
in_use-coalesce q s b [] = refl
in_use-coalesce q s b (c ∷ bs) =
    ground (arith, in_use-coalesce q s (merge b c) bs, in_use-coalesce q s c bs)

coalesce-Tiles :
    (a e : ℕ) (b : Block) (bs : Heap) → e < 2 ^ 32 → Tiles a e (b ∷ bs) → Tiles a e (coalesce b bs)
unfolding coalesce
coalesce-Tiles a e b [] small t = t
coalesce-Tiles a e b (c ∷ bs) small t = elim (Bool-cases (b.is_free && c.is_free)) [
  | inl both ↦ rw both (
      let top = Tiles-le (a + header + b.size + header + c.size) e bs t.1.1 in
      coalesce-Tiles a e (merge b c) bs small
        (t.0, subst (λ (x : ℕ). Tiles x e bs) (omega (arith, small, top)) t.1.1))
  | inr apart ↦ rw apart (t.0, coalesce-Tiles (a + header + b.size) e c bs small t.1)
]

head_free-coalesce : (b : Block) (bs : Heap) → head_free (coalesce b bs) ≡ b.is_free
unfolding coalesce
head_free-coalesce b [] = refl
head_free-coalesce b (c ∷ bs) = ground (arith, head_free-coalesce (merge b c) bs)

coalesce-Joined : (b : Block) (bs : Heap) → Joined (coalesce b bs)
unfolding coalesce
coalesce-Joined b [] = (ground arith, tt)
coalesce-Joined b (c ∷ bs) = elim (Bool-cases (b.is_free && c.is_free)) [
  | inl both ↦ rw both (coalesce-Joined (merge b c) bs)
  | inr apart ↦ rw apart (rw (head_free-coalesce c bs) apart, coalesce-Joined c bs)
]

-- What joining leaves of a heap.
record Tidied (a e : ℕ) (h h' : Heap) : Type 0 where
  tiles : Tiles a e h'
  joined : Joined h'
  used : (q s : ℕ) → in_use q s h' ≡ in_use q s h

coalesce_all-Tidied :
    (a e : ℕ) (h : Heap) → e < 2 ^ 32 → Tiles a e h → Tidied a e h (coalesce_all h)
coalesce_all-Tidied a e [] small t = record { tiles = t; joined = tt; used = λ q s. refl }
coalesce_all-Tidied a e (b ∷ bs) small t = record {
  tiles = coalesce-Tiles a e b bs small t;
  joined = coalesce-Joined b bs;
  used = λ q s. in_use-coalesce q s b bs;
}

kfree-run :
    (p : ℕ) (h : Heap)
    → is_block p h ≡ true
    → kfree (p + header) h ≡ some (coalesce_all (release p h))
unfolding kfree
kfree-run p h e =
    let at : p + header - header ≡ p = omega arith in
    rw (==-false_of_ne (p + header) 0 (omega arith), at, e)

-- `h'` is `h` after the block at `p` is given back.
pub record Returned (p : ℕ) (h h' : Heap) : Type 0 where
  pub tiles : IsHeap h'
  pub joined : Joined h'
  pub used : (q s : ℕ) → in_use q s h' ≡ (not (p == q) && in_use q s h)

-- Let the blocks tile the heap and the block behind the header at `p` be in use. `kfree` of its
-- pointer gives it back: every other block in use is as before, the blocks still tile the heap,
-- and no two free blocks are neighbours any more.
pub kfree-Returned :
    (p s : ℕ) (h : Heap)
    → IsHeap h
    → in_use p s h ≡ true
    → (h' : Heap) × (kfree (p + header) h ≡ some h') × Returned p h h'
kfree-Returned p s h t u =
    let r =
      coalesce_all-Tidied heap_start (heap_start + heap_size) (release p h) (omega arith)
        (release-Tiles p heap_start (heap_start + heap_size) h t) in
    (
      coalesce_all (release p h),
      kfree-run p h (is_block_of_in_use p s h u),
      record {
        tiles = r.tiles;
        joined = r.joined;
        used = λ q n. r.used q n ∙ in_use-release p q n h;
      },
    )

-- In a tiled heap, a block that is handed out and given back leaves the blocks in use as they
-- were, and the heap tiled; for requests that are neither 0 nor within 7 of 2 ^ 32.
pub kfree-kmalloc :
    (size p : ℕ) (h h' : Heap)
    → 0 < size
    → size + 7 < 2 ^ 32
    → IsHeap h
    → kmalloc size h ≡ some (p, h')
    → (g : Heap) × (kfree p h' ≡ some g) × IsHeap g × ((q s : ℕ) → in_use q s g ≡ in_use q s h)
kfree-kmalloc size p h h' positive small t e =
    let (le, out) = kmalloc-Outcome size h positive small t in given (rw e at out)
  where
    given :
        Outcome heap_start (heap_start + heap_size) (round_up size) h (some (p, h'))
        → (g : Heap) × (kfree p h' ≡ some g) × IsHeap g × ((q s : ℕ) → in_use q s g ≡ in_use q s h)
    given (above, r) =
        let at : p - header + header ≡ p = omega (arith, above) in
        let u = r.used (p - header) r.bytes ∙ rw (==-refl (p - header), ==-refl r.bytes) in
        let (g, run, back) = kfree-Returned (p - header) r.bytes h' r.tiles u in
        (
          g,
          rw at at run,
          back.tiles,
          λ q s. ground (arith, back.used q s, r.used q s, r.fresh s, ==_iff (p - header) q),
        )
