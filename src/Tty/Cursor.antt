-- ===== src/Tty/Cursor.antt =====
-- The cursor of src/driver/tty.c follows the position on the screen.
use beaner_os.Tty.{Tty, width, update_cursor, sync_cursor, next_row, putentryat, putchar, write}
use beaner_os.Tty.Screen.{IsValid, putchar-Drawn}
use beaner_os.Base.{
  ℕ, ◌+◌, ◌*◌, ◌/◌, ◌%◌, ◌^◌, ◌<◌, ◌≡◌, refl, List, ◌∷◌, arith, ◌==◌, if◌then◌else◌, Bool, true,
  false, [],
}

-- The last writes to the ports of the cursor give it the position, low byte first.
pub record IsShown (t : Tty) : Type 0 where
  pub high : ℕ
  pub low : ℕ
  pub rest : List (ℕ × ℕ)
  pub outs : t.outs ≡ (0x3d5, high) ∷ (0x3d4, 0x0e) ∷ (0x3d5, low) ∷ (0x3d4, 0x0f) ∷ rest
  pub bytes : (high < 256) × (low < 256)
  pub at : high * 256 + low ≡ t.row * width + t.column

sync_cursor-IsShown : (t : Tty) → IsValid t → IsShown (sync_cursor t)
unfolding update_cursor
sync_cursor-IsShown t v = record {
  high = (t.row * width + t.column) % 2 ^ 16 / 2 ^ 8 % 256;
  low = (t.row * width + t.column) % 2 ^ 16 % 256;
  rest = t.outs;
  outs = refl;
  bytes = (omega arith, omega arith);
  at = omega (arith, v.column_in, v.row_in);
}

-- The end of `putchar`: `line` for the new line, `next` for another character.
abbrev finish : (is_line : Bool) (line next : Tty) → Tty
finish is_line line next =
    if is_line
    then (let w = sync_cursor line in record w { serial = 10 ∷ w.serial })
    else sync_cursor next

finish-IsShown :
    (is_line : Bool) (line next : Tty)
    → IsValid (finish is_line line next)
    → IsShown (finish is_line line next)
unfolding update_cursor
finish-IsShown true line next v =
    let s = sync_cursor-IsShown line (record { column_in = v.column_in; row_in = v.row_in }) in
    record { high = s.high; low = s.low; rest = s.rest; outs = s.outs; bytes = s.bytes; at = s.at }
finish-IsShown false line next v =
    sync_cursor-IsShown next (record { column_in = v.column_in; row_in = v.row_in })

putchar-IsShown : (c : ℕ) (t : Tty) → IsValid t → IsShown (putchar c t)
unfolding putchar
putchar-IsShown c t v =
    let u = putentryat c t.color t.column t.row t in
    let next = record u { column = (u.column + 1) % 2 ^ 32 } in
    finish-IsShown (c == 10) (next_row t) (if next.column == width then next_row next else next)
      (putchar-Drawn c t v).valid

-- After any characters but none are written, from a position on the screen, the last that the
-- ports of the cursor were given is the position, both bytes of it.
pub write-IsShown : (c : ℕ) (cs : List ℕ) (t : Tty) → IsValid t → IsShown (write (c ∷ cs) t)
unfolding write
write-IsShown c [] t v = putchar-IsShown c t v
write-IsShown c (d ∷ cs) t v = write-IsShown d cs (putchar c t) (putchar-Drawn c t v).valid
