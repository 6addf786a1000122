-- ===== src/Keyboard/Layout.antt =====
-- The US keyboard that the tables of src/driver/keyboard.c are for, by the rows of its keys.
use beaner_os.Base.Bits.{holds_from, holds_at}
use beaner_os.Base.{
  ltb, leb, ◌==◌, if◌then◌else◌, ℕ, ◌-◌, ◌<◌, ◌≡◌, refl, Bool, true, false, ◌||◌, Option, none,
  some, List, get_or, codes, arith, ==_iff,
}
use beaner_os.Keyboard.{ascii_of}

abbrev digit_row : (shift : Bool) → List ℕ
digit_row false = codes "1234567890-="
digit_row true = codes "!@#$%^&*()_+"

abbrev upper_row : (shift : Bool) → List ℕ
upper_row false = codes "qwertyuiop[]"
upper_row true = codes "QWERTYUIOP{}"

abbrev home_row : (shift : Bool) → List ℕ
home_row false = codes "asdfghjkl;'`"
home_row true = codes "ASDFGHJKL:\"~"

abbrev lower_row : (shift : Bool) → List ℕ
lower_row false = codes "\\zxcvbnm,./"
lower_row true = codes "|ZXCVBNM<>?"

-- The character of a key, 0 where it has none: the rows begin at scancodes 2, 16, 30 and 43;
-- backspace is 14, tab 15, enter 28, the asterisk of the keypad 55, and the blank 57.
unfoldable pub key_char : (shift : Bool) (scancode : ℕ) → ℕ
key_char shift s =
    if s == 14
    then 8
    else if s == 15
    then 9
    else if s == 28
    then 10
    else if s == 55
    then b'*'
    else if s == 57
    then b' '
    else if ltb s 2
    then 0
    else if ltb s 14
    then get_or (digit_row shift) (s - 2) 0
    else if ltb s 28
    then get_or (upper_row shift) (s - 16) 0
    else if ltb s 30
    then 0
    else if ltb s 43
    then get_or (home_row shift) (s - 30) 0
    else get_or (lower_row shift) (s - 43) 0

-- The character that is typed, if any: none for the shift keys, for a key that is let go, and for a
-- key that has no character.
unfoldable pub typed : (shift : Bool) (scancode : ℕ) → Option ℕ
typed shift scancode =
    if (scancode == 0x2a) || (scancode == 0x36)
    then none
    else if leb 58 scancode
    then none
    else if key_char shift scancode == 0
    then none
    else some (key_char shift scancode)

agrees : (shift : Bool) → holds_from (λ s. ascii_of shift s == key_char shift s) 0 58 ≡ true
unfolding holds_from ascii_of key_char
agrees false = refl
agrees true = refl

pub ascii_of-key_char : (shift : Bool) (s : ℕ) → s < 58 → ascii_of shift s ≡ key_char shift s
ascii_of-key_char shift s lt = (==_iff (ascii_of shift s) (key_char shift s)).0 (
    holds_at (λ n. ascii_of shift n == key_char shift n) 0 58 s (omega arith) (omega arith)
      (agrees shift))
