-- ===== src/Libc/Compare.antt =====
-- memcmp of src/libc/string against the first byte in which two buffers differ.
use beaner_os.Base.{
  ℕ, zero, suc, ◌+◌, ◌<◌, ◌≤◌, ◌≡◌, ◌∙◌, ◌⊎◌, inl, inr, refl, ltb, arith, ℤ, pos, negsuc, lt→ltb,
  ap, eq-cases, sym, false,
}
use beaner_os.Libc.{Mem, compare_from, memcmp}

-- The buffers at `a` and `b` have the same byte at each offset from `i` up to `e`.
abbrev pub Same : (a b i e : ℕ) → Mem → Type 0
Same a b i e m = (j : ℕ) → i ≤ j → j < e → m (a + j) ≡ m (b + j)

-- `r` is how the buffers compare by what stands at offset `j`.
abbrev pub ByOffset : (a b j : ℕ) → Mem → ℤ → Type 0
ByOffset a b j m r =
    ((r ≡ negsuc 0) × (m (a + j) < m (b + j))) ⊎ ((r ≡ pos 1) × (m (b + j) < m (a + j)))

-- `r` is how they compare by the first difference from `i` up to `e`, if there is one.
abbrev pub Compared : (a b i e : ℕ) → Mem → ℤ → Type 0
Compared a b i e m r =
    ((r ≡ pos 0) × Same a b i e m)
    ⊎ ((j : ℕ) × (i ≤ j) × (j < e) × Same a b i j m × ByOffset a b j m r)

Same-before :
    (a b i e : ℕ) (m : Mem) → m (a + i) ≡ m (b + i) → Same a b (i + 1) e m → Same a b i e m
Same-before a b i e m here s j lo hi = elim (eq-cases i j) [
  | inl q ↦ ap (λ (x : ℕ). m (a + x)) (sym q) ∙ here ∙ ap (λ (x : ℕ). m (b + x)) q
  | inr ne ↦ s j (omega arith) hi
]

Compared-before :
    (a b i e : ℕ) (m : Mem) (r : ℤ)
    → m (a + i) ≡ m (b + i)
    → Compared a b (i + 1) e m r
    → Compared a b i e m r
Compared-before a b i e m r here (inl (z, s)) = inl (z, Same-before a b i e m here s)
Compared-before a b i e m r here (inr (j, lo, hi, s, o)) =
    inr (j, omega arith, hi, Same-before a b i j m here s, o)

ltb_irrefl : (x y : ℕ) → x ≡ y → ltb x y ≡ false
ltb_irrefl x y e = ground arith

ltb_asym : (x y : ℕ) → x < y → ltb y x ≡ false
ltb_asym x y lt = ground arith

Same-none : (a b i : ℕ) (m : Mem) → Same a b i i m
Same-none a b i m j lo hi = absurd (omega arith)

three_way : (x y : ℕ) → (x < y) ⊎ (y < x) ⊎ (x ≡ y)
three_way x y = omega arith

compare_from-Compared :
    (a b i n e : ℕ) (m : Mem) → e ≡ i + n → Compared a b i e m (compare_from a b i n m)
unfolding compare_from
compare_from-Compared a b i zero e m q = inl (refl, λ j lo hi. absurd (omega arith))
compare_from-Compared a b i (suc n) e m q = elim (three_way (m (a + i)) (m (b + i))) [
  | inl lt ↦
      rw (lt→ltb _ _ lt) (inr (i, omega arith, omega arith, Same-none a b i m, inl (refl, lt)))
  | inr (inl gt) ↦
      rw (ltb_asym _ _ gt, lt→ltb _ _ gt)
        (inr (i, omega arith, omega arith, Same-none a b i m, inr (refl, gt)))
  | inr (inr eq) ↦
      rw (ltb_irrefl _ _ eq, ltb_irrefl _ _ (sym eq))
        (Compared-before a b i e m (compare_from a b (i + 1) n m) eq
          (compare_from-Compared a b (i + 1) n e m (omega arith)))
]

-- `memcmp` gives 0 for buffers that are equal byte by byte; otherwise it gives -1 or 1, by the
-- first byte in which they differ.
pub memcmp-Compared : (a b size : ℕ) (m : Mem) → Compared a b 0 size m (memcmp a b size m)
unfolding memcmp
memcmp-Compared a b size m = compare_from-Compared a b 0 size size m (omega arith)
