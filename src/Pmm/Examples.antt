-- ===== src/Pmm/Examples.antt =====
-- The theorems on src/mm/pmm.c at concrete inputs.
use beaner_os.Base.{
  ℕ, ◌+◌, ◌*◌, ◌≡◌, refl, ap, true, false, arith, ◌∷◌, replicate, length-replicate, suc, ◌-◌, ◌/◌,
  ◌⊎◌,
}
use beaner_os.Pmm.{
  Pmm, frame_size, test_frame, find_free_frame, find_from, test_bit, free_frame, init,
}
use beaner_os.Pmm.Window.{is_used, free_in}
use beaner_os.Pmm.Alloc.{IsValid, Freed, Outcome, alloc_frame-Outcome, free_frame-Freed}
use beaner_os.Pmm.Init.{init-IsValid}

-- Memory from 1 MiB to 4 MiB.
abbrev low : ℕ
low = 0x0010_0000

abbrev high : ℕ
high = 0x0040_0000

-- Frames 1 to 7 are managed; frame 0 and frame 1 are marked.
abbrev marked : Pmm
marked = record {
  bitmap = 3 ∷ replicate 32767 0;
  total_frames = 7;
  free_frames = 6;
  first_frame = 1;
}

marked-IsValid : IsValid marked
unfolding free_in test_frame test_bit
marked-IsValid = record {
  size = ap suc (length-replicate {A = ℕ} 32767 0);
  behind = omega arith;
  inside = omega arith;
  counted = refl;
}

find_free_frame_test : find_free_frame marked ≡ 2 * frame_size
unfolding find_free_frame find_from test_frame test_bit
find_free_frame_test = refl

init-IsValid_example :
    IsValid (init low high)
    × ((init low high).first_frame ≡ (low + 4095) / frame_size)
    × ((init low high).total_frames ≡ high / frame_size - (low + 4095) / frame_size)
    × ((init low high).free_frames ≡ (init low high).total_frames)
init-IsValid_example = init-IsValid low high (omega arith) (omega arith) (omega arith)

alloc_frame-Outcome_example : Outcome marked
alloc_frame-Outcome_example = alloc_frame-Outcome marked marked-IsValid

free_frame-Freed_example :
    ((is_used marked 1 ≡ true) × Freed 1 marked (free_frame (1 * frame_size) marked))
    ⊎ ((is_used marked 1 ≡ false) × (free_frame (1 * frame_size) marked ≡ marked))
free_frame-Freed_example = free_frame-Freed 1 marked marked-IsValid (omega arith)
