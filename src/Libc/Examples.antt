-- ===== src/Libc/Examples.antt =====
-- The theorems on src/libc/string at concrete inputs.
use beaner_os.Base.{◌≡◌, refl, inl, arith}
use beaner_os.Libc.{Mem, copy_up, copy_down, memcpy, memmove}
use beaner_os.Libc.Move.{copied, memmove-copied, memcpy-memmove}

-- Each byte holds its own address.
abbrev ramp : Mem
ramp x = x

-- Source and destination overlap.
memmove_test : (memmove 12 10 4 ramp 14 ≡ 12) × (memcpy 12 10 4 ramp 14 ≡ 10)
unfolding memmove memcpy copy_up copy_down
memmove_test = (refl, refl)

memmove-copied_example : memmove 12 10 4 ramp 14 ≡ copied 12 10 4 ramp 14
memmove-copied_example = memmove-copied 12 10 4 ramp 14

memcpy-memmove_example : memcpy 6 10 4 ramp 9 ≡ memmove 6 10 4 ramp 9
memcpy-memmove_example = memcpy-memmove 6 10 4 ramp 9 (inl (omega arith))
