-- ===== src/Tty/Screen.antt =====
-- terminal_scroll and terminal_putchar of src/driver/tty.c against the cells of the screen.
use beaner_os.Base.{
  ℕ, zero, suc, ◌+◌, ◌*◌, ◌%◌, ◌^◌, ◌≤◌, ◌<◌, ◌≡◌, ◌∙◌, refl, false, ◌&&◌, if◌then◌else◌, ◌==◌, ltb,
  leb, List, [], ◌∷◌, arith, Bool-cases, inl, inr,
}
use beaner_os.Tty.{
  Tty, width, height, vga_entry, put_cell, move_up, blank, scroll, putentryat, next_row, putchar,
  write, update_cursor,
}

-- The position lies on the screen.
pub record IsValid (t : Tty) : Type 0 where
  pub column_in : t.column < width
  pub row_in : t.row < height

move_up-cell :
    (dest n : ℕ) (b : ℕ → ℕ) (i : ℕ)
    → move_up dest n b i ≡ (if leb dest i && ltb i (dest + n) then b (i + width) else b i)
unfolding move_up
move_up-cell dest zero b i = ground arith
move_up-cell dest (suc n) b i =
    ground (arith, move_up-cell (dest + 1) n (put_cell dest (b (dest + width)) b) i)

blank-cell :
    (index n v : ℕ) (b : ℕ → ℕ) (i : ℕ)
    → blank index n v b i ≡ (if leb index i && ltb i (index + n) then v else b i)
unfolding blank
blank-cell index zero v b i = ground arith
blank-cell index (suc n) v b i = ground (arith, blank-cell (index + 1) n v (put_cell index v b) i)

-- `terminal_scroll` moves each row but the first one up, blanks the last one in the current
-- colour, and writes no cell behind the screen.
pub scroll-cell :
    (t : Tty) (i : ℕ)
    → (scroll t).buffer i ≡ (
        if ltb i (24 * width)
        then t.buffer (i + width)
        else if ltb i (height * width)
        then vga_entry 32 t.color
        else t.buffer i)
unfolding scroll
scroll-cell t i = ground (
  arith,
  blank-cell (24 * width) width (vga_entry 32 t.color) (move_up 0 (24 * width) t.buffer) i,
  move_up-cell 0 (24 * width) t.buffer i,
)

-- `u` is `t` with other contents of the screen, and the position still on it.
pub record Drawn (t u : Tty) : Type 0 where
  pub valid : IsValid u
  pub behind : (i : ℕ) → height * width ≤ i → u.buffer i ≡ t.buffer i

scroll-behind : (t : Tty) (i : ℕ) → height * width ≤ i → (scroll t).buffer i ≡ t.buffer i
scroll-behind t i le = ground (arith, scroll-cell t i)

row_below : (r : ℕ) → r < height → ((r + 1) % 2 ^ 32 == height) ≡ false → (r + 1) % 2 ^ 32 < height
row_below r lt ne = ground arith

column_below : (r : ℕ) → r < width → ((r + 1) % 2 ^ 32 == width) ≡ false → (r + 1) % 2 ^ 32 < width
column_below r lt ne = ground arith

scroll-IsValid : (t : Tty) → t.column < width → IsValid (scroll t)
unfolding scroll
scroll-IsValid t lt = record { column_in = lt; row_in = omega arith }

next_row-Drawn : (t : Tty) → t.row < height → Drawn t (next_row t)
unfolding next_row
next_row-Drawn t lt =
    let u = record t { column = 0; row = (t.row + 1) % 2 ^ 32 } in
    elim (Bool-cases ((t.row + 1) % 2 ^ 32 == height)) [
      | inl e ↦ rw e (record { valid = scroll-IsValid u (omega arith); behind = scroll-behind u })
      | inr ne ↦ rw ne (record {
        valid = record { column_in = omega arith; row_in = row_below t.row lt ne };
        behind = λ i le. refl;
      })
    ]

cell_behind :
    (t : Tty) (v i : ℕ)
    → IsValid t
    → height * width ≤ i
    → put_cell ((t.row * width + t.column) % 2 ^ 32) v t.buffer i ≡ t.buffer i
cell_behind t v i w le = ground (arith, w.column_in, w.row_in)

pub putchar-Drawn : (c : ℕ) (t : Tty) → IsValid t → Drawn t (putchar c t)
unfolding putchar putentryat update_cursor
putchar-Drawn c t v = elim (Bool-cases (c == 10)) [
  | inl e ↦
      let d = next_row-Drawn t v.row_in in
      rw e (record {
        valid = record { column_in = d.valid.column_in; row_in = d.valid.row_in };
        behind = d.behind;
      })
  | inr ne ↦ elim (Bool-cases ((t.column + 1) % 2 ^ 32 == width)) [
    | inl e ↦
        let u : Tty = record t {
          column = (t.column + 1) % 2 ^ 32;
          buffer = put_cell ((t.row * width + t.column) % 2 ^ 32) (vga_entry c t.color) t.buffer;
          serial = c ∷ t.serial;
        } in
        let d = next_row-Drawn u v.row_in in
        rw (ne, e)
          (record {
            valid = record { column_in = d.valid.column_in; row_in = d.valid.row_in };
            behind = λ i le. d.behind i le ∙ cell_behind t (vga_entry c t.color) i v le;
          })
    | inr e ↦
        rw (ne, e)
          (record {
            valid = record { column_in = column_below t.column v.column_in e; row_in = v.row_in };
            behind = λ i le. cell_behind t (vga_entry c t.color) i v le;
          })
  ]
]

-- With the position on the screen, writing any characters leaves it there and changes no cell
-- behind the screen.
pub write-Drawn : (cs : List ℕ) (t : Tty) → IsValid t → Drawn t (write cs t)
unfolding write
write-Drawn [] t v = record { valid = v; behind = λ i le. refl }
write-Drawn (c ∷ cs) t v =
    let d = putchar-Drawn c t v in
    let r = write-Drawn cs (putchar c t) d.valid in
    record { valid = r.valid; behind = λ i le. r.behind i le ∙ d.behind i le }
