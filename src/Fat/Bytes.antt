-- ===== src/Fat/Bytes.antt =====
-- Fields of packed little-endian structs inside a sector buffer, as src/fs/fat.c reads and writes
-- them through casts of `fat->buf`, on i386.
use beaner_os.Base.{
  ℕ, ◌+◌, ◌*◌, ◌/◌, ◌%◌, ◌^◌, ◌≤◌, ◌<◌, ◌≡◌, ◌∙◌, ◌⊎◌, List, arith, length, get_or, set, length-set,
  get_or-set_self, get_or-set_ne,
}

-- A sector of 512 bytes.
abbrev pub Buf : Type 0
Buf = List ℕ

-- A `uint8_t` of the buffer. Every offset of the model is below 512.
abbrev pub get8 : Buf → ℕ → ℕ
get8 b i = get_or b i 0 % 256

unfoldable pub get32 : Buf → ℕ → ℕ
get32 b i = get8 b i + 256 * get8 b (i + 1) + 65536 * get8 b (i + 2) + 16777216 * get8 b (i + 3)

unfoldable pub get16 : Buf → ℕ → ℕ
get16 b i = get8 b i + 256 * get8 b (i + 1)

unfoldable pub put16 : Buf → ℕ → ℕ → Buf
put16 b i v = set (set b i (v % 256)) (i + 1) (v / 256 % 256)

unfoldable pub put32 : Buf → ℕ → ℕ → Buf
put32 b i v =
    set (set (set (set b i (v % 256)) (i + 1) (v / 256 % 256)) (i + 2) (v / 65536 % 256)) (i + 3)
      (v / 16777216 % 256)

pub length-put32 : (b : Buf) (i v : ℕ) → length (put32 b i v) ≡ length b
unfolding put32
length-put32 b i v = length-set _ _ _ ∙ length-set _ _ _ ∙ length-set _ _ _ ∙ length-set _ _ _

-- A byte outside the four that are written.
pub get8-put32_ne : (b : Buf) (i j v : ℕ) → (j < i) ⊎ (i + 4 ≤ j) → get8 (put32 b i v) j ≡ get8 b j
unfolding put32
get8-put32_ne b i j v apart = grind (arith, get_or-set_ne)

pub get32-lt : (b : Buf) (i : ℕ) → get32 b i < 2 ^ 32
unfolding get32
get32-lt b i = omega arith

pub get32-put32_ne :
    (b : Buf) (i j v : ℕ) → (j + 4 ≤ i) ⊎ (i + 4 ≤ j) → get32 (put32 b i v) j ≡ get32 b j
unfolding get32
get32-put32_ne b i j v apart = omega (
  arith,
  get8-put32_ne b i j v (omega arith),
  get8-put32_ne b i (j + 1) v (omega arith),
  get8-put32_ne b i (j + 2) v (omega arith),
  get8-put32_ne b i (j + 3) v (omega arith),
)

module _ (b : Buf) (i v : ℕ) (fits : i + 4 ≤ length b) where
  byte0 : get8 (put32 b i v) i ≡ v % 256
  unfolding put32
  byte0 = grind (arith, get_or-set_ne, get_or-set_self)

  byte1 : get8 (put32 b i v) (i + 1) ≡ v / 256 % 256
  unfolding put32
  byte1 = grind (arith, get_or-set_ne, get_or-set_self, length-set)

  byte2 : get8 (put32 b i v) (i + 2) ≡ v / 65536 % 256
  unfolding put32
  byte2 = grind (arith, get_or-set_ne, get_or-set_self, length-set)

  byte3 : get8 (put32 b i v) (i + 3) ≡ v / 16777216 % 256
  unfolding put32
  byte3 = grind (arith, get_or-set_self, length-set)

  -- What is written is read back.
  pub get32-put32 : v < 2 ^ 32 → get32 (put32 b i v) i ≡ v
  unfolding get32
  get32-put32 small = omega (arith, byte0, byte1, byte2, byte3)
