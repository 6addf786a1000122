-- ===== src/Pmm/Window.antt =====
-- The frames of the bitmap of src/mm/pmm.c, and the count of the unused ones in a range.
use mathlib.Core.Path.{subst, ap₂}
use beaner_os.Pmm.{
  Pmm, byte, frame_size, frame_addr, set_bit, clear_bit, test_bit, set_frame, clear_frame,
  test_frame, put_byte, find_from,
}
use beaner_os.Pmm.Bits.{test_bit-set_bit, test_bit-clear_bit, set_bit-lt, clear_bit-lt}
use beaner_os.Base.{
  ◌==◌, if◌then◌else◌, ==-false_of_ne, ==-refl, Bool-cases, eq-cases, length, get_or-set_self,
  get_or-set_ne, ℕ, zero, suc, ◌+◌, ◌*◌, ◌/◌, ◌%◌, ◌^◌, ◌≤◌, ◌<◌, ◌≡◌, refl, ◌⊎◌, inl, inr, Bool,
  true, false, not, ◌&&◌, ◌||◌, arith, ◌∙◌,
}

-- Frame `f` is marked.
abbrev pub is_used : Pmm → ℕ → Bool
is_used p f = test_bit (byte p.bitmap (f / 8)) (f % 8)

-- The unmarked frames among the `n` from `f` on.
unfoldable pub free_in : Pmm → (f n : ℕ) → ℕ
free_in p f zero = 0
free_in p f (suc n) = (if is_used p f then 0 else 1) + free_in p (f + 1) n

byte-put_byte :
    (p : Pmm) (i j b : ℕ)
    → i < length p.bitmap
    → b < 256
    → byte (put_byte p i b).bitmap j ≡ (if i == j then b else byte p.bitmap j)
byte-put_byte p i j b h hb = elim (eq-cases i j) [
  | inl e ↦ rw (e, ==-refl j, get_or-set_self p.bitmap j b 0 (rw (← e) h)) (omega arith)
  | inr ne ↦ rw (==-false_of_ne i j ne, get_or-set_ne p.bitmap i j b 0 ne)
]

pub is_used-set_frame :
    (p : Pmm) (addr g : ℕ)
    → addr / frame_size / 8 < length p.bitmap
    → is_used (set_frame addr p) g ≡ ((addr / frame_size == g) || is_used p g)
unfolding set_frame
is_used-set_frame p addr g h =
    let f = addr / frame_size in
    let b = byte p.bitmap (f / 8) in
    ground (
      arith,
      byte-put_byte p (f / 8) (g / 8) (set_bit b (f % 8)) h (set_bit-lt b (f % 8)),
      test_bit-set_bit b (f % 8) (g % 8) (omega arith) (omega arith) (omega arith),
    )

pub is_used-clear_frame :
    (p : Pmm) (addr g : ℕ)
    → addr / frame_size / 8 < length p.bitmap
    → is_used (clear_frame addr p) g ≡ (not (addr / frame_size == g) && is_used p g)
unfolding clear_frame
is_used-clear_frame p addr g h =
    let f = addr / frame_size in
    let b = byte p.bitmap (f / 8) in
    ground (
      arith,
      byte-put_byte p (f / 8) (g / 8) (clear_bit b (f % 8)) h (clear_bit-lt b (f % 8)),
      test_bit-clear_bit b (f % 8) (g % 8) (omega arith) (omega arith) (omega arith),
    )

-- `q` is `p` with frame `g`, unmarked before, marked.
pub record Marks (g : ℕ) (p q : Pmm) : Type 0 where
  pub fresh : is_used p g ≡ false
  pub same : (h : ℕ) → is_used q h ≡ ((g == h) || is_used p h)

pub free_in-outside :
    (n f g : ℕ) (p q : Pmm) → Marks g p q → (g < f) ⊎ (f + n ≤ g) → free_in q f n ≡ free_in p f n
unfolding free_in
free_in-outside zero f g p q m out = refl
free_in-outside (suc n) f g p q m out =
    ground (arith, m.same f, free_in-outside n (f + 1) g p q m (omega arith))

pub free_in-inside :
    (n f g : ℕ) (p q : Pmm) → Marks g p q → f ≤ g → g < f + n → free_in q f n + 1 ≡ free_in p f n
unfolding free_in
free_in-inside zero f g p q m lo hi = absurd (omega arith)
free_in-inside (suc n) f g p q m lo hi = elim (eq-cases f g) [
  | inl e ↦
      let here : is_used p f ≡ false = rw e m.fresh in
      ground (arith, here, m.same f, free_in-outside n (f + 1) g p q m (omega arith))
  | inr ne ↦ ground (arith, m.same f, free_in-inside n (f + 1) g p q m (omega arith) (omega arith))
]

-- What find_from gives: no frame where all are marked, else the first that is not.
abbrev pub FirstFree : Pmm → (n f r : ℕ) → Type 0
FirstFree p n f r =
    ((r ≡ 0) × (free_in p f n ≡ 0))
    ⊎ ((g : ℕ) × (r ≡ g * frame_size)
        × (f ≤ g)
        × (g < f + n)
        × (is_used p g ≡ false)
        × ((h : ℕ) → f ≤ h → h < g → is_used p h ≡ true))

test_frame-is_used : (p : Pmm) (f : ℕ) → f < 262144 → test_frame (frame_addr f) p ≡ is_used p f
unfolding test_frame
test_frame-is_used p f h = let e : f * frame_size % 2 ^ 32 / frame_size ≡ f = omega arith in rw e

pub find_from-FirstFree : (n f : ℕ) (p : Pmm) → f + n ≤ 262144 → FirstFree p n f (find_from n f p)
unfolding find_from free_in
find_from-FirstFree zero f p h = inl (refl, refl)
find_from-FirstFree (suc n) f p h = elim (Bool-cases (is_used p f)) [
  | inl used ↦
      rw (test_frame-is_used p f (omega arith), used)
        (elim (find_from-FirstFree n (f + 1) p (omega arith)) [
          | inl (e, z) ↦ inl (e, omega arith)
          | inr (g, e, lo, hi, free, before) ↦ inr (
            g,
            e,
            omega arith,
            omega arith,
            free,
            λ x lo' hi'. elim (eq-cases f x) [
              | inl q ↦ subst (λ (y : ℕ). is_used p y ≡ true) q used
              | inr ne ↦ before x (omega arith) hi'
            ],
          )
        ])
  | inr free ↦
      rw (test_frame-is_used p f (omega arith), free)
        (inr (f, omega arith, omega arith, omega arith, free, λ x lo hi. absurd (omega arith)))
]

-- The count looks at nothing but the bitmap.
free_in-bitmap : (n f : ℕ) (p q : Pmm) → p.bitmap ≡ q.bitmap → free_in p f n ≡ free_in q f n
unfolding free_in
free_in-bitmap zero f p q e = refl
free_in-bitmap (suc n) f p q e = ground (arith, free_in-bitmap n (f + 1) p q e)

pub free_in-same :
    (f g n m : ℕ) (p q : Pmm) → p.bitmap ≡ q.bitmap → f ≡ g → n ≡ m → free_in p f n ≡ free_in q g m
free_in-same f g n m p q b e d = free_in-bitmap n f p q b ∙ ap₂ (free_in q) e d

pub free_in-le : (f n : ℕ) (p : Pmm) → free_in p f n ≤ n
unfolding free_in
free_in-le f zero p = omega arith
free_in-le f (suc n) p = ground (arith, free_in-le (f + 1) n p)
