-- ===== src/Kheap/Alloc.antt =====
-- kmalloc of src/mm/kheap.c hands out a block of its own, or finds none that is large enough.
use mathlib.Core.Path.{subst}
use beaner_os.Kheap.{
  Block, Heap, header, heap_start, heap_size, init, alloc_in, kmalloc, taken, rest_of, fits, splits,
  behind, round_up,
}
use beaner_os.Kheap.Tiles.{Tiles, IsHeap, in_use, in_use-bounds, Tiles-le}
use beaner_os.Base.{
  ◌==◌, Bool-cases, ℕ, ◌+◌, ◌-◌, ◌^◌, ◌≤◌, ◌<◌, ◌≡◌, inl, inr, true, false, ◌&&◌, ◌||◌, Option,
  none, some, [], ◌∷◌, arith, leb→le, ==-false_of_ne, ==-refl, ◌*◌, ◌/◌, ◌%◌, refl, ◌∙◌,
}

-- No block is free and of `size` at least.
abbrev pub NoFit : (size : ℕ) → Heap → Type 0
NoFit size [] = Unit
NoFit size (b ∷ bs) = (fits size b ≡ false) × NoFit size bs

-- `h'` is `h` after the block behind the header at `q` is handed out with `s` bytes.
pub record Granted (a e size q : ℕ) (h h' : Heap) : Type 0 where
  pub bytes : ℕ
  pub enough : size ≤ bytes
  pub close : bytes < size + 20
  pub tiles : Tiles a e h'
  pub fresh : (s : ℕ) → in_use q s h ≡ false
  pub used : (p s : ℕ) → in_use p s h' ≡ (((q == p) && (bytes == s)) || in_use p s h)

abbrev pub Outcome : (a e size : ℕ) → Heap → Option (ℕ × Heap) → Type 0
Outcome a e size h none = NoFit size h
Outcome a e size h (some (p, h')) = (header ≤ p) × Granted a e size (p - header) h h'

module _ (e size : ℕ) (small : e ≤ 2 ^ 31) where
  fits-le : (b : Block) → fits size b ≡ true → size ≤ b.size
  fits-le b f = ground arith

  not_behind : (a p s : ℕ) (h : Heap) → Tiles a e h → p < a → in_use p s h ≡ false
  not_behind a p s h t lt = elim (Bool-cases (in_use p s h)) [
    | inl u ↦ absurd (omega (arith, in_use-bounds a e p s h t u))
    | inr u ↦ u
  ]

  grant_split :
      (a : ℕ) (b : Block) (bs : Heap)
      → Tiles a e (b ∷ bs)
      → fits size b ≡ true
      → splits size b ≡ true
      → Granted a e size b.addr (b ∷ bs) (taken b size ∷ rest_of b size ∷ bs)
  unfolding in_use
  grant_split a b bs t f sp = record {
    bytes = size;
    enough = omega arith;
    close = omega arith;
    tiles =
        let le = fits-le b f in
        let top = Tiles-le (a + header + b.size) e bs t.1 in
        let sum : splits size b ≡ true → size + header + 8 ≤ b.size =
          λ q. omega (arith, le, top, leb→le _ _ q) in
        (
          t.0,
          (
            omega (arith, t.0, le, top, sum sp),
            subst (λ (x : ℕ). Tiles x e bs) (omega (arith, le, sum sp)) t.1,
          ),
        );
    fresh = λ s. ground (arith, not_behind (a + header + b.size) b.addr s bs t.1 (omega arith));
    used = λ p s. ground arith;
  }

  grant_whole :
      (a : ℕ) (b : Block) (bs : Heap)
      → Tiles a e (b ∷ bs)
      → fits size b ≡ true
      → splits size b ≡ false
      → Granted a e size b.addr (b ∷ bs) (taken b b.size ∷ bs)
  unfolding in_use
  grant_whole a b bs t f sp =
      let le = Tiles-le (a + header + b.size) e bs t.1 in
      record {
        bytes = b.size;
        enough = ground arith;
        close = ground (arith, le);
        tiles = t;
        fresh = λ s. ground (arith, not_behind (a + header + b.size) b.addr s bs t.1 (omega arith));
        used = λ p s. ground arith;
      }

  -- A grant further on is one of the whole list.
  grant_behind :
      (a q : ℕ) (b : Block) (bs bs' : Heap)
      → Tiles a e (b ∷ bs)
      → a + header + b.size ≤ q
      → Granted (a + header + b.size) e size q bs bs'
      → Granted a e size q (b ∷ bs) (b ∷ bs')
  unfolding in_use
  grant_behind a q b bs bs' t le g = record {
    bytes = g.bytes;
    enough = g.enough;
    close = g.close;
    tiles = (t.0, g.tiles);
    fresh = λ s. ground (arith, g.fresh s);
    used = λ p s. ground (arith, g.used p s);
  }

  Granted-at : (a q : ℕ) (h h' : Heap) → Granted a e size q h h' → a ≤ q
  Granted-at a q h h' g =
      (in_use-bounds a e q g.bytes h' g.tiles
        (g.used q g.bytes ∙ rw (==-refl q, ==-refl g.bytes))).0

  behind-Outcome :
      (a : ℕ) (b : Block) (bs : Heap) (r : Option (ℕ × Heap))
      → Tiles a e (b ∷ bs)
      → fits size b ≡ false
      → Outcome (a + header + b.size) e size bs r
      → Outcome a e size (b ∷ bs) (behind b r)
  behind-Outcome a b bs none t f o = (f, o)
  behind-Outcome a b bs (some (p, bs')) t f o = (
    o.0,
    grant_behind a (p - header) b bs bs' t
        (Granted-at (a + header + b.size) (p - header) bs bs' o.1) o.1,
  )

  alloc_in-Outcome : (a : ℕ) (h : Heap) → Tiles a e h → Outcome a e size h (alloc_in size h)
  unfolding alloc_in
  alloc_in-Outcome a [] t = tt
  alloc_in-Outcome a (b ∷ bs) t =
      let at : b.addr + header - header ≡ b.addr = omega arith in
      elim (Bool-cases (fits size b)) [
        | inl f ↦ elim (Bool-cases (splits size b)) [
          | inl sp ↦ rw (f, sp) (omega arith, rw at (grant_split a b bs t f sp))
          | inr sp ↦ rw (f, sp) (omega arith, rw at (grant_whole a b bs t f sp))
        ]
        | inr f ↦ rw f (
            behind-Outcome a b bs (alloc_in size bs) t f
              (alloc_in-Outcome (a + header + b.size) bs t.1))
      ]

round_up-le : (size : ℕ) → size + 7 < 2 ^ 32 → size ≤ round_up size
unfolding round_up
round_up-le size small = omega arith

pub kmalloc-Outcome :
    (size : ℕ) (h : Heap)
    → 0 < size
    → size + 7 < 2 ^ 32
    → IsHeap h
    → (size ≤ round_up size)
      × Outcome heap_start (heap_start + heap_size) (round_up size) h (kmalloc size h)
unfolding kmalloc
kmalloc-Outcome size h positive small t = (
  round_up-le size small,
  rw (==-false_of_ne size 0 (omega arith))
      (alloc_in-Outcome (heap_start + heap_size) (round_up size) (omega arith) heap_start h t),
)

-- The block that the heap starts with.
abbrev fresh : Block
fresh = record { addr = heap_start; size = heap_size - header; is_free = true }

-- A request below 2 ^ 32 and within 7 of it is rounded to 0: of a fresh heap `kmalloc` gives a
-- pointer to a block of no bytes.
pub kmalloc_wraps :
    (size : ℕ)
    → 2 ^ 32 ≤ size + 7
    → size < 2 ^ 32
    → (h : Heap) × (kmalloc size init ≡ some (heap_start + header, h))
      × (in_use heap_start 0 h ≡ true)
unfolding kmalloc init round_up alloc_in in_use
kmalloc_wraps size lo hi =
    let nz = ==-false_of_ne size 0 (omega arith) in
    let z : (size + 7) % 2 ^ 32 / 8 * 8 ≡ 0 = omega arith in
    (taken fresh 0 ∷ rest_of fresh 0 ∷ [], rw (nz, z), refl)
