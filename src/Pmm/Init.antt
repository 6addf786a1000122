-- ===== src/Pmm/Init.antt =====
-- pmm_init of src/mm/pmm.c gives a valid allocator in which every managed frame is unmarked.
use Prim.Native.Nat.{bit_and-bitwise}
use beaner_os.Pmm.{Pmm, bitmap_size, frame_size, set_frame, mark_low, init, test_bit}
use beaner_os.Pmm.Window.{is_used, free_in, is_used-set_frame}
use beaner_os.Pmm.Alloc.{IsValid, length-set_frame, same-set_frame}
use beaner_os.Base.{
  length, ℕ, zero, suc, ◌*◌, ◌≤◌, ◌≡◌, refl, true, ltb, ◌==◌, ltb→lt, ==-false_of_ne, Bool-cases,
  replicate, get_or-replicate, ◌+◌, ◌/◌, ◌%◌, ◌^◌, ◌<◌, bit_and, ap, ◌∙◌, inl, inr, Bool, false,
  ◌||◌, arith, length-replicate, ◌-◌, sym,
}

-- What marking the frames below `mem_low` leaves alone.
record Keeps (mem_low : ℕ) (p q : Pmm) : Type 0 where
  size : length q.bitmap ≡ length p.bitmap
  total : q.total_frames ≡ p.total_frames
  first : q.first_frame ≡ p.first_frame
  free : q.free_frames ≡ p.free_frames
  above : (h : ℕ) → mem_low ≤ h * frame_size → is_used q h ≡ is_used p h
  below : (h : ℕ) → is_used p h ≡ true → is_used q h ≡ true

one_more :
    (mem_low j : ℕ) (p r : Pmm)
    → j * frame_size < mem_low
    → length p.bitmap ≡ bitmap_size
    → mem_low ≤ bitmap_size * 8 * frame_size
    → Keeps mem_low (set_frame (j * frame_size) p) r
    → Keeps mem_low p r
one_more mem_low j p r lt size low k =
    let d : j * frame_size / frame_size ≡ j = omega arith in
    let law = λ (h : ℕ).
      is_used-set_frame p (j * frame_size) h (omega arith)
      ∙ ap (λ (f : ℕ). (f == h) || is_used p h) d in
    record {
      size = k.size ∙ length-set_frame (j * frame_size) p;
      total = k.total ∙ (same-set_frame (j * frame_size) p).0;
      first = k.first ∙ (same-set_frame (j * frame_size) p).1;
      free = k.free ∙ (same-set_frame (j * frame_size) p).2;
      above = λ h far.
          k.above h far
          ∙ law h
          ∙ rw (==-false_of_ne j h (λ e. absurd (clash mem_low j h lt far e)));
      below = λ h u. k.below h (law h ∙ or_true (j == h) u);
    }
  where
    clash : (mem_low j h : ℕ) → j * frame_size < mem_low → mem_low ≤ h * frame_size → j ≡ h → ⊥
    clash mem_low j h lt far e = omega arith

    or_true : (a : Bool) {b : Bool} → b ≡ true → (a || b) ≡ true
    or_true a e = ground arith

mark_low-Keeps :
    (k j mem_low : ℕ) (p : Pmm)
    → length p.bitmap ≡ bitmap_size
    → mem_low ≤ bitmap_size * 8 * frame_size
    → Keeps mem_low p (mark_low k (j * frame_size) mem_low p)
unfolding mark_low
mark_low-Keeps zero j mem_low p size low = record {
  size = refl;
  total = refl;
  first = refl;
  free = refl;
  above = λ h _. refl;
  below = λ h e. e;
}
mark_low-Keeps (suc k) j mem_low p size low =
    let q = set_frame (j * frame_size) p in
    let e : j * frame_size + frame_size ≡ (j + 1) * frame_size = omega arith in
    elim (Bool-cases (ltb (j * frame_size) mem_low)) [
      | inl t ↦
          rw (t, e)
            (one_more mem_low j p (mark_low k ((j + 1) * frame_size) mem_low q) (ltb→lt _ _ t) size
              low
              (mark_low-Keeps k (j + 1) mem_low q (length-set_frame (j * frame_size) p ∙ size) low))
      | inr t ↦ rw t (record {
        size = refl;
        total = refl;
        first = refl;
        free = refl;
        above = λ h _. refl;
        below = λ h u. u;
      })
    ]

free_in-all :
    (f n : ℕ) (p : Pmm) → ((h : ℕ) → f ≤ h → h < f + n → is_used p h ≡ false) → free_in p f n ≡ n
unfolding free_in
free_in-all f zero p none_used = refl
free_in-all f (suc n) p none_used = ground (
  arith,
  none_used f (omega arith) (omega arith),
  free_in-all (f + 1) n p (λ h lo hi. none_used h (omega arith) (omega arith)),
)

test_bit-zero : (o : ℕ) → o < 8 → test_bit 0 o ≡ false
unfolding test_bit
test_bit-zero o h = ground (arith, zero_and (2 ^ o))
  where
    zero_and : (b : ℕ) → bit_and 0 b ≡ 0
    zero_and b = bit_and-bitwise 0 b

-- What init starts marking from.
abbrev blank : (first total : ℕ) → Pmm
blank first total = record {
  bitmap = replicate bitmap_size 0;
  total_frames = total;
  free_frames = total;
  first_frame = first;
}

blank-unused : (first total h : ℕ) → is_used (blank first total) h ≡ false
blank-unused first total h =
    ap (λ (b : ℕ). test_bit (b % 256) (h % 8)) (get_or-replicate bitmap_size (h / 8) 0)
    ∙ test_bit-zero (h % 8) (omega arith)

marked-IsValid :
    (mem_low first total : ℕ) (q : Pmm)
    → 0 < first
    → mem_low ≤ first * frame_size
    → first + total ≤ bitmap_size * 8
    → Keeps mem_low (blank first total) q
    → IsValid q
marked-IsValid mem_low first total q positive covers inside k = record {
  size = k.size ∙ length-replicate {A = ℕ} bitmap_size 0;
  behind = omega (arith, k.first);
  inside = omega (arith, k.first, k.total);
  counted =
      k.free
      ∙ sym k.total
      ∙ sym (
          free_in-all q.first_frame q.total_frames q
            (λ h lo hi. k.above h (omega (arith, k.first)) ∙ blank-unused first total h));
}

-- `init` where nothing wraps and the bitmap is large enough.
init-run :
    (mem_low mem_high : ℕ)
    → mem_low + 4095 < 2 ^ 32
    → (mem_low + 4095) / frame_size ≤ mem_high / frame_size
    → mem_high / frame_size ≤ bitmap_size * 8
    → init mem_low mem_high
      ≡ mark_low (mem_low / frame_size + 1) 0 mem_low (
          blank
            ((mem_low + 4095) / frame_size)
            (mem_high / frame_size - (mem_low + 4095) / frame_size))
unfolding init
init-run mem_low mem_high small le cap =
    let first : (mem_low + frame_size - 1) % 2 ^ 32 / frame_size ≡ (mem_low + 4095) / frame_size =
      omega arith in
    let room : (mem_high / frame_size + 2 ^ 32 - (mem_low + 4095) / frame_size) % 2 ^ 32
        ≡ mem_high / frame_size - (mem_low + 4095) / frame_size =
      omega arith in
    let fits : ltb (bitmap_size * 8) (mem_high / frame_size - (mem_low + 4095) / frame_size)
        ≡ false =
      ground arith in
    simp (first, room, fits)

-- For memory that begins behind address 0, ends at most at 1 GiB, and does not end before its
-- first frame boundary, `pmm_init` gives a valid allocator of the whole frames between the two
-- bounds, none of them marked.
pub init-IsValid :
    (mem_low mem_high : ℕ)
    → 0 < mem_low
    → (mem_low + 4095) / frame_size ≤ mem_high / frame_size
    → mem_high ≤ bitmap_size * 8 * frame_size
    → IsValid (init mem_low mem_high)
      × ((init mem_low mem_high).first_frame ≡ (mem_low + 4095) / frame_size)
      × ((init mem_low mem_high).total_frames
          ≡ mem_high / frame_size - (mem_low + 4095) / frame_size)
      × ((init mem_low mem_high).free_frames ≡ (init mem_low mem_high).total_frames)
init-IsValid mem_low mem_high positive le below =
    let first = (mem_low + 4095) / frame_size in
    let total = mem_high / frame_size - first in
    let k =
      mark_low-Keeps (mem_low / frame_size + 1) 0 mem_low (blank first total)
        (length-replicate {A = ℕ} bitmap_size 0) (omega arith) in
    rw (init-run mem_low mem_high (omega arith) le (omega arith)) (
      marked-IsValid mem_low first total _ (omega arith) (omega arith) (omega arith) k,
      k.first,
      k.total,
      k.free ∙ sym k.total,
    )
