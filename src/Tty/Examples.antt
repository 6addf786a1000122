-- ===== src/Tty/Examples.antt =====
-- The theorems on src/driver/tty.c at concrete inputs.
use beaner_os.Base.{◌≡◌, refl, [], ◌∷◌, arith}
use beaner_os.Tty.{Tty, scroll, putentryat, next_row, putchar, write, update_cursor}
use beaner_os.Tty.Cursor.{IsShown, write-IsShown}
use beaner_os.Tty.Screen.{IsValid, Drawn, write-Drawn}

-- The last cell of the last row comes next; each cell holds its index.
abbrev corner : Tty
corner = record { row = 24; column = 79; color = 15; buffer = λ i. i; serial = []; outs = [] }

corner-IsValid : IsValid corner
corner-IsValid = record { column_in = omega arith; row_in = omega arith }

newline_test : (write (10 ∷ 65 ∷ []) corner).column ≡ 1
unfolding write putchar next_row putentryat scroll update_cursor
newline_test = refl

write-Drawn_example : Drawn corner (write (65 ∷ 66 ∷ []) corner)
write-Drawn_example = write-Drawn (65 ∷ 66 ∷ []) corner corner-IsValid

write-IsShown_example : IsShown (write (65 ∷ 66 ∷ []) corner)
write-IsShown_example = write-IsShown 65 (66 ∷ []) corner corner-IsValid
