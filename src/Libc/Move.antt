-- ===== src/Libc/Move.antt =====
-- memmove, memcpy and memset of src/libc/string against what memory holds afterwards.
use beaner_os.Base.{
  ℕ, zero, suc, ◌+◌, ◌-◌, ◌%◌, ◌≤◌, ◌<◌, ◌≡◌, ◌⊎◌, refl, ltb, leb, ◌&&◌, if◌then◌else◌, arith,
  Bool-cases, ltb→lt, inl, inr, sym, ◌∙◌, Bool, false,
}
use beaner_os.Libc.{Mem, store, copy_up, copy_down, memcpy, memmove, fill, memset}

-- `x` lies in the `n` bytes at `a`.
abbrev pub within : (a n x : ℕ) → Bool
within a n x = leb a x && ltb x (a + n)

-- Memory after the `n` bytes at `src` are copied to `dst`.
abbrev pub copied : (dst src n : ℕ) → Mem → Mem
copied dst src n m x = if within dst n x then m (src + (x - dst)) else m x

copy_down-copied :
    (dst src n : ℕ) (m : Mem) (x : ℕ) → src ≤ dst → copy_down dst src n m x ≡ copied dst src n m x
unfolding copy_down
copy_down-copied dst src zero m x le = ground arith
copy_down-copied dst src (suc n) m x le =
    ground (arith, copy_down-copied dst src n (store (dst + n) (m (src + n)) m) x le)

copy_up-copied :
    (dst src i n : ℕ) (m : Mem) (x : ℕ)
    → (dst ≤ src) ⊎ (src + i + n ≤ dst + i)
    → copy_up dst src i n m x ≡ (if within (dst + i) n x then m (src + (x - dst)) else m x)
unfolding copy_up
copy_up-copied dst src i zero m x lt = ground arith
copy_up-copied dst src i (suc n) m x lt =
    ground
      (arith, copy_up-copied dst src (i + 1) n (store (dst + i) (m (src + i)) m) x (omega arith))

le_of_lt : (a b : ℕ) → a < b → a ≤ b
le_of_lt a b h = omega arith

le_of_ltb : (a b : ℕ) → ltb a b ≡ false → b ≤ a
le_of_ltb a b e = ground arith

fill-within :
    (buf value i n : ℕ) (m : Mem) (x : ℕ)
    → fill buf value i n m x ≡ (if within (buf + i) n x then value % 256 else m x)
unfolding fill
fill-within buf value i zero m x = ground arith
fill-within buf value i (suc n) m x =
    ground (arith, fill-within buf value (i + 1) n (store (buf + i) (value % 256) m) x)

-- `memmove` leaves at the destination what stood at the source before, whether the two overlap or
-- not, and changes no other byte.
pub memmove-copied :
    (dst src size : ℕ) (m : Mem) (x : ℕ) → memmove dst src size m x ≡ copied dst src size m x
unfolding memmove
memmove-copied dst src size m x = elim (Bool-cases (ltb dst src)) [
  | inl lt ↦
      let start : dst + 0 ≡ dst = omega arith in
      rw lt (
        copy_up-copied dst src 0 size m x (inl (le_of_lt dst src (ltb→lt dst src lt)))
        ∙ rw start refl)
  | inr ge ↦ rw ge (copy_down-copied dst src size m x (le_of_ltb dst src ge))
]

-- `memset` writes the low byte of the value to each byte of the buffer, and nothing else.
pub memset-filled :
    (buf value size : ℕ) (m : Mem) (x : ℕ)
    → memset buf value size m x ≡ (if within buf size x then value % 256 else m x)
unfolding memset
memset-filled buf value size m x =
    let start : buf + 0 ≡ buf = omega arith in fill-within buf value 0 size m x ∙ rw start refl

-- `memcpy` between buffers that lie apart, as the `restrict` of its parameters asks for, does what
-- `memmove` does.
pub memcpy-memmove :
    (dst src size : ℕ) (m : Mem) (x : ℕ)
    → (dst + size ≤ src) ⊎ (src + size ≤ dst)
    → memcpy dst src size m x ≡ memmove dst src size m x
unfolding memcpy
memcpy-memmove dst src size m x apart =
    let start : dst + 0 ≡ dst = omega arith in
    copy_up-copied dst src 0 size m x (omega arith)
    ∙ rw start refl
    ∙ sym (memmove-copied dst src size m x)
