-- ===== src/Pmm/Alloc.antt =====
-- pmm_alloc_frame and pmm_free_frame of src/mm/pmm.c against the set of unmarked frames.
use beaner_os.Pmm.{
  Pmm, bitmap_size, frame_size, set_frame, clear_frame, test_frame, find_free_frame, alloc_frame,
  free_frame,
}
use beaner_os.Pmm.Window.{
  is_used, free_in, free_in-same, Marks, is_used-set_frame, is_used-clear_frame, free_in-inside,
  FirstFree, find_from-FirstFree, free_in-le,
}
use beaner_os.Base.{
  ◌==◌, ==-false_of_ne, length, length-set, ℕ, ◌+◌, ◌-◌, ◌*◌, ◌/◌, ◌≤◌, ◌<◌, ◌≡◌, refl, ap, ◌∙◌,
  ◌≢◌, ◌⊎◌, true, false, ◌||◌, arith, ==_iff, ==-refl, Bool-cases, eq-cases, ◌%◌, ◌^◌, sym, inl,
  inr, not, ◌&&◌, Bool,
}

-- The managed frames lie behind frame 0 and inside the bitmap, and `free_frames` counts the unmarked
-- ones among them.
pub record IsValid (p : Pmm) : Type 0 where
  pub size : length p.bitmap ≡ bitmap_size
  pub behind : 0 < p.first_frame
  pub inside : p.first_frame + p.total_frames ≤ bitmap_size * 8
  pub counted : p.free_frames ≡ free_in p p.first_frame p.total_frames

-- Frame `g` is managed.
abbrev pub InRange : Pmm → ℕ → Type 0
InRange p g = (p.first_frame ≤ g) × (g < p.first_frame + p.total_frames)

pub length-set_frame : (addr : ℕ) (p : Pmm) → length (set_frame addr p).bitmap ≡ length p.bitmap
unfolding set_frame
length-set_frame addr p = length-set p.bitmap _ _

length-clear_frame : (addr : ℕ) (p : Pmm) → length (clear_frame addr p).bitmap ≡ length p.bitmap
unfolding clear_frame
length-clear_frame addr p = length-set p.bitmap _ _

pub same-set_frame :
    (addr : ℕ) (p : Pmm)
    → ((set_frame addr p).total_frames ≡ p.total_frames)
      × ((set_frame addr p).first_frame ≡ p.first_frame)
      × ((set_frame addr p).free_frames ≡ p.free_frames)
unfolding set_frame
same-set_frame addr p = (refl, refl, refl)

same-clear_frame :
    (addr : ℕ) (p : Pmm)
    → ((clear_frame addr p).total_frames ≡ p.total_frames)
      × ((clear_frame addr p).first_frame ≡ p.first_frame)
      × ((clear_frame addr p).free_frames ≡ p.free_frames)
unfolding clear_frame
same-clear_frame addr p = (refl, refl, refl)

-- `q` is `p` after frame `g` is handed out.
pub record Allocated (g : ℕ) (p q : Pmm) : Type 0 where
  pub valid : IsValid q
  pub in_range : InRange p g
  pub marks : Marks g p q
  pub lowest : (h : ℕ) → p.first_frame ≤ h → h < g → is_used p h ≡ true
  pub count : q.free_frames + 1 ≡ p.free_frames
  pub total : q.total_frames ≡ p.total_frames
  pub first : q.first_frame ≡ p.first_frame

set_frame-Marks :
    (g : ℕ) (p : Pmm)
    → length p.bitmap ≡ bitmap_size
    → g < bitmap_size * 8
    → is_used p g ≡ false
    → Marks g p (set_frame (g * frame_size) p)
set_frame-Marks g p size lt fresh =
    let e : g * frame_size / frame_size ≡ g = omega arith in
    record {
      fresh = fresh;
      same = λ h.
          is_used-set_frame p (g * frame_size) h (omega arith)
          ∙ ap (λ (f : ℕ). (f == h) || is_used p h) e;
    }

-- What alloc_frame leaves where it hands `addr` out.
abbrev taken : (addr : ℕ) → Pmm → Pmm
taken addr p = record (set_frame addr p) { free_frames = p.free_frames - 1 }

run_taken :
    (p : Pmm) (g : ℕ)
    → find_free_frame p ≡ g * frame_size
    → p.free_frames ≢ 0
    → g ≢ 0
    → alloc_frame p ≡ (g * frame_size, taken (g * frame_size) p)
unfolding alloc_frame
run_taken p g e nz gz =
    simp (==-false_of_ne p.free_frames 0 nz, e, ==-false_of_ne (g * frame_size) 0 (omega arith))

run_none : (p : Pmm) → (p.free_frames ≡ 0) ⊎ (find_free_frame p ≡ 0) → alloc_frame p ≡ (0, p)
unfolding alloc_frame
run_none p h = ground arith

taken-Allocated :
    (g : ℕ) (p : Pmm)
    → IsValid p
    → InRange p g
    → is_used p g ≡ false
    → ((h : ℕ) → p.first_frame ≤ h → h < g → is_used p h ≡ true)
    → Allocated g p (taken (g * frame_size) p)
taken-Allocated g p v r fresh lowest =
    let addr = g * frame_size in
    let m = set_frame-Marks g p v.size (omega (arith, v.inside)) fresh in
    let less = free_in-inside p.total_frames p.first_frame g p (set_frame addr p) m r.0 r.1 in
    record {
      valid = record {
        size = length-set_frame addr p ∙ v.size;
        behind = omega (arith, same-set_frame addr p, v.behind);
        inside = omega (arith, same-set_frame addr p, v.inside);
        counted =
            let q = set_frame addr p in
            let e =
              free_in-same p.first_frame q.first_frame p.total_frames q.total_frames q
                (taken addr p) refl (sym (same-set_frame addr p).1)
                (sym (same-set_frame addr p).0) in
            omega (arith, e, less, v.counted);
      };
      in_range = r;
      marks = record { fresh = m.fresh; same = m.same };
      lowest = lowest;
      count = omega (arith, less, v.counted);
      total = (same-set_frame addr p).0;
      first = (same-set_frame addr p).1;
    }

find_free_frame-FirstFree :
    (p : Pmm) → IsValid p → FirstFree p p.total_frames p.first_frame (find_free_frame p)
unfolding find_free_frame
find_free_frame-FirstFree p v = find_from-FirstFree p.total_frames p.first_frame p v.inside

-- What the allocation is: none where `free_frames` is 0, else a frame.
abbrev pub Outcome : Pmm → Type 0
Outcome p =
    ((p.free_frames ≡ 0) × (alloc_frame p ≡ (0, p)))
    ⊎ ((g : ℕ) × (q : Pmm) × (alloc_frame p ≡ (g * frame_size, q)) × Allocated g p q)

-- Of a valid allocator, `pmm_alloc_frame` fails exactly where `free_frames` is 0, and then changes
-- nothing. Otherwise it gives the address of the lowest unmarked frame that it manages, marks that
-- frame and no other, counts one frame less, and keeps the allocator valid.
pub alloc_frame-Outcome : (p : Pmm) → IsValid p → Outcome p
alloc_frame-Outcome p v = elim (eq-cases p.free_frames 0) [
  | inl e ↦ inl (e, run_none p (inl e))
  | inr nz ↦ elim (find_free_frame-FirstFree p v) [
    | inl (e, z) ↦ absurd (nz (v.counted ∙ z))
    | inr (g, e, lo, hi, fresh, lowest) ↦ inr (
      g,
      taken (g * frame_size) p,
      run_taken p g e nz (omega (arith, v.behind)),
      taken-Allocated g p v (lo, hi) fresh lowest,
    )
  ]
]

-- What free_frame leaves of a marked frame.
abbrev given_back : (addr : ℕ) → Pmm → Pmm
given_back addr p = record (clear_frame addr p) { free_frames = (p.free_frames + 1) % 2 ^ 32 }

-- `q` is `p` after frame `g` is given back.
pub record Freed (g : ℕ) (p q : Pmm) : Type 0 where
  pub valid : IsValid q
  pub marks : Marks g q p
  pub count : q.free_frames ≡ p.free_frames + 1
  pub total : q.total_frames ≡ p.total_frames
  pub first : q.first_frame ≡ p.first_frame

test-is_used : (p : Pmm) (g : ℕ) → test_frame (g * frame_size) p ≡ is_used p g
unfolding test_frame
test-is_used p g = let e : g * frame_size / frame_size ≡ g = omega arith in rw e

run_marked :
    (p : Pmm) (g : ℕ)
    → is_used p g ≡ true
    → free_frame (g * frame_size) p ≡ given_back (g * frame_size) p
unfolding free_frame
run_marked p g e = rw (test-is_used p g ∙ e)

run_unmarked : (p : Pmm) (g : ℕ) → is_used p g ≡ false → free_frame (g * frame_size) p ≡ p
unfolding free_frame
run_unmarked p g e = rw (test-is_used p g ∙ e)

clear_frame-Marks :
    (g : ℕ) (p : Pmm)
    → length p.bitmap ≡ bitmap_size
    → g < bitmap_size * 8
    → is_used p g ≡ true
    → Marks g (clear_frame (g * frame_size) p) p
clear_frame-Marks g p size lt used =
    let e : g * frame_size / frame_size ≡ g = omega arith in
    let law = λ (h : ℕ).
      is_used-clear_frame p (g * frame_size) h (omega arith)
      ∙ ap (λ (f : ℕ). not (f == h) && is_used p h) e in
    record {
      fresh = ground (arith, law g, ==-refl g);
      same = λ h. ground (arith, law h, ==_iff g h, used);
    }

given_back-Freed :
    (g : ℕ) (p : Pmm)
    → IsValid p
    → InRange p g
    → is_used p g ≡ true
    → Freed g p (given_back (g * frame_size) p)
given_back-Freed g p v r used =
    let addr = g * frame_size in
    let q = clear_frame addr p in
    let m = clear_frame-Marks g p v.size (omega (arith, v.inside)) used in
    let more = free_in-inside p.total_frames p.first_frame g q p m r.0 r.1 in
    let small = free_in-le p.first_frame p.total_frames p in
    let e =
      free_in-same p.first_frame q.first_frame p.total_frames q.total_frames q (given_back addr p)
        refl (sym (same-clear_frame addr p).1) (sym (same-clear_frame addr p).0) in
    record {
      valid = record {
        size = length-clear_frame addr p ∙ v.size;
        behind = omega (arith, same-clear_frame addr p, v.behind);
        inside = omega (arith, same-clear_frame addr p, v.inside);
        counted = omega (arith, e, more, v.counted, small, v.inside);
      };
      marks = record { fresh = m.fresh; same = m.same };
      count = omega (arith, v.counted, small, v.inside);
      total = (same-clear_frame addr p).0;
      first = (same-clear_frame addr p).1;
    }

-- Of a valid allocator, `pmm_free_frame` of a managed frame gives it back if it is marked: it
-- unmarks that frame and no other, counts one frame more, and keeps the allocator valid. If the
-- frame is not marked, a double free, nothing changes.
pub free_frame-Freed :
    (g : ℕ) (p : Pmm)
    → IsValid p
    → InRange p g
    → ((is_used p g ≡ true) × Freed g p (free_frame (g * frame_size) p))
      ⊎ ((is_used p g ≡ false) × (free_frame (g * frame_size) p ≡ p))
free_frame-Freed g p v r = elim (Bool-cases (is_used p g)) [
  | inl used ↦ inl (used, rw (run_marked p g used) (given_back-Freed g p v r used))
  | inr fresh ↦ inr (fresh, run_unmarked p g fresh)
]

round_trip :
    (g : ℕ) (p q : Pmm)
    → Allocated g p q
    → IsValid (free_frame (g * frame_size) q)
      × ((free_frame (g * frame_size) q).free_frames ≡ p.free_frames)
      × ((h : ℕ) → is_used (free_frame (g * frame_size) q) h ≡ is_used p h)
round_trip g p q a =
    let used : is_used q g ≡ true = ground (arith, a.marks.same g, ==-refl g) in
    let r : InRange q g = omega (arith, a.in_range, a.total, a.first) in
    elim (free_frame-Freed g q a.valid r) [
      | inl (_, f) ↦ (
        f.valid,
        f.count ∙ a.count,
        λ h.
            ground
              (arith, f.marks.same h, f.marks.fresh, a.marks.same h, a.marks.fresh, ==_iff g h),
      )
      | inr (fresh, _) ↦ absurd (clash used fresh)
    ]
  where
    clash : {b : Bool} → b ≡ true → b ≡ false → ⊥
    clash e f = cc

-- Of a valid allocator with a free frame, a frame that is handed out and given back leaves a valid
-- allocator with the same marks and count.
pub free_frame-alloc_frame :
    (p q : Pmm) (addr : ℕ)
    → IsValid p
    → p.free_frames ≢ 0
    → alloc_frame p ≡ (addr, q)
    → IsValid (free_frame addr q)
      × ((free_frame addr q).free_frames ≡ p.free_frames)
      × ((h : ℕ) → is_used (free_frame addr q) h ≡ is_used p h)
free_frame-alloc_frame p q addr v nz e = elim (alloc_frame-Outcome p v) [
  | inl (z, _) ↦ absurd (nz z)
  | inr (g, r, run, a) ↦
      let same : ◌≡◌ {A = ℕ × Pmm} (addr, q) (g * frame_size, r) = sym e ∙ run in
      rw (ap (λ (x : ℕ × Pmm). x.0) same, ap (λ (x : ℕ × Pmm). x.1) same) (round_trip g p r a)
]
