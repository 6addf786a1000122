-- ===== src/Tty.antt =====
-- The terminal, src/driver/tty.c: 25 rows of 80 cells of VGA text memory. What goes to the serial
-- line and to the ports of the cursor is kept in lists, the latest first.
pub mod Screen
pub mod Cursor
mod Examples
use beaner_os.Base.{
  ℕ, zero, suc, ◌+◌, ◌*◌, ◌%◌, ◌^◌, if◌then◌else◌, ◌==◌, List, [], ◌∷◌, ◌-◌, ◌/◌, bit_and, bit_or,
}

abbrev pub width : ℕ
width = 80

abbrev pub height : ℕ
height = 25

-- The static variables; `buffer` is the text memory by index.
pub record Tty : Type 0 where
  pub row : ℕ
  pub column : ℕ
  pub color : ℕ
  pub buffer : ℕ → ℕ
  pub serial : List ℕ
  pub outs : List (ℕ × ℕ)

-- `uc | color << 8` of an unsigned char and one shifted past it.
unfoldable pub vga_entry : (uc color : ℕ) → ℕ
vga_entry uc color = uc % 256 + color % 256 * 256

-- `fg | bg << 4` of two colours below 16.
unfoldable pub vga_entry_color : (fg bg : ℕ) → ℕ
vga_entry_color fg bg = (fg + bg * 16) % 256

-- `outb(port, value)`
abbrev pub outb : (port value : ℕ) → Tty → Tty
outb port value t = record t { outs = (port, value) ∷ t.outs }

-- The position is cast to unsigned short.
unfoldable pub update_cursor : (x y : ℕ) → Tty → Tty
update_cursor x y t =
    let at = (y * width + x) % 2 ^ 16 in
    outb 0x3d5 (at / 2 ^ 8 % 256) (outb 0x3d4 0x0e (outb 0x3d5 (at % 256) (outb 0x3d4 0x0f t)))

-- `update_cursor(terminal_column, terminal_row)`
abbrev pub sync_cursor : Tty → Tty
sync_cursor t = update_cursor t.column t.row t

abbrev pub put_cell : (index v : ℕ) → (ℕ → ℕ) → ℕ → ℕ
put_cell index v buffer i = if i == index then v else buffer i

-- The first loops of terminal_scroll, as one over the 24 * 80 cells: cell `dest` from `dest + 80`.
unfoldable pub move_up : (dest n : ℕ) → (ℕ → ℕ) → ℕ → ℕ
move_up dest zero b = b
move_up dest (suc n) b = move_up (dest + 1) n (put_cell dest (b (dest + width)) b)

-- `n` cells from `index` on become `v`.
unfoldable pub blank : (index n v : ℕ) → (ℕ → ℕ) → ℕ → ℕ
blank index zero v b = b
blank index (suc n) v b = blank (index + 1) n v (put_cell index v b)

unfoldable pub scroll : Tty → Tty
scroll t = record t {
  buffer = blank (24 * width) width (vga_entry 32 t.color) (move_up 0 (24 * width) t.buffer);
  row = 24;
}

unfoldable pub putentryat : (c color x y : ℕ) → Tty → Tty
putentryat c color x y t = record t {
  buffer = put_cell ((y * width + x) % 2 ^ 32) (vga_entry c color) t.buffer;
  serial = c ∷ t.serial;
}

-- VGA_COLOR_WHITE on VGA_COLOR_BLACK.
unfoldable pub initialize : Tty → Tty
initialize t = record t {
  row = 0;
  column = 0;
  color = vga_entry_color 15 0;
  buffer = blank 0 (height * width) (vga_entry 32 (vga_entry_color 15 0)) t.buffer;
}

unfoldable pub clear : Tty → Tty
clear t = sync_cursor (record t {
  row = 0;
  column = 0;
  buffer = blank 0 (height * width) (vga_entry 32 t.color) t.buffer;
})

-- `first` and `last` are what the port is read as: the rows of a cell that the cursor begins and
-- ends at, in their low bits.
unfoldable pub enable_cursor : (first last : ℕ) → Tty → Tty
enable_cursor first last t =
    outb 0x3d5 (bit_or (bit_and last 0xe0) 15)
      (outb 0x3d4 0x0b (outb 0x3d5 (bit_or (bit_and first 0xc0) 0) (outb 0x3d4 0x0a t)))

abbrev pub get_column : Tty → ℕ
get_column t = t.column

abbrev pub get_row : Tty → ℕ
get_row t = t.row

unfoldable pub setcolor : ℕ → Tty → Tty
setcolor color t = record t { color = color }

unfoldable pub set_position : (x y : ℕ) → Tty → Tty
set_position x y t = sync_cursor (record t { column = x; row = y })

-- `terminal_column = 0; if (++terminal_row == VGA_HEIGHT) terminal_scroll();`
unfoldable pub next_row : Tty → Tty
next_row t =
    let u = record t { column = 0; row = (t.row + 1) % 2 ^ 32 } in
    let scrolled = scroll u in if u.row == height then scrolled else u

unfoldable pub putchar : (c : ℕ) → Tty → Tty
putchar c t =
    let line = next_row t in
    let u = putentryat c t.color t.column t.row t in
    let v = record u { column = (u.column + 1) % 2 ^ 32 } in
    let over = next_row v in
    if c == 10
    then (let w = sync_cursor line in record w { serial = 10 ∷ w.serial })
    else sync_cursor (if v.column == width then over else v)

unfoldable pub putchar_color : (c fg bg : ℕ) → Tty → Tty
putchar_color c fg bg t =
    let u = putchar c (record t { color = vga_entry_color fg bg }) in record u { color = t.color }

unfoldable pub write : List ℕ → Tty → Tty
write [] t = t
write (c ∷ cs) t = write cs (putchar c t)

-- `terminal_writestring_color`; a string is the list of its characters.
unfoldable pub writestring_color : (chars : List ℕ) (fg bg : ℕ) → Tty → Tty
writestring_color chars fg bg t =
    let u = write chars (record t { color = vga_entry_color fg bg }) in record u { color = t.color }

unfoldable pub backspace : Tty → Tty
backspace t =
    let u = record t { column = (t.column + 2 ^ 32 - 1) % 2 ^ 32 } in
    sync_cursor (putentryat 32 u.color u.column u.row u)
