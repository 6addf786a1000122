-- ===== src/Keyboard.antt =====
-- The keyboard driver, src/driver/keyboard.c: the interrupt handler turns scancodes into characters
-- of a ring buffer, `keyboard_getchar` takes them out. The port that the handler reads is a
-- parameter: the scancode is its argument. Characters are their ASCII codes.
pub mod Layout
pub mod Queue
mod Examples
use beaner_os.Base.{
  ltb, ◌==◌, if◌then◌else◌, ℕ, ◌+◌, ◌/◌, ◌%◌, Bool, true, false, ◌||◌, Option, none, some, List, [],
  ◌∷◌, get_or, set, replicate, length,
}

abbrev pub buffer_size : ℕ
buffer_size = 256

-- `scancode_to_ascii`
abbrev pub scancode_to_ascii : List ℕ
scancode_to_ascii =
    0 ∷ 0 ∷ 49 ∷ 50 ∷ 51 ∷ 52 ∷ 53 ∷ 54 ∷ 55 ∷ 56 ∷ 57 ∷ 48 ∷ 45 ∷ 61 ∷ 8 ∷ 9 ∷ 113 ∷ 119 ∷ 101
    ∷ 114 ∷ 116 ∷ 121 ∷ 117 ∷ 105 ∷ 111 ∷ 112 ∷ 91 ∷ 93 ∷ 10 ∷ 0 ∷ 97 ∷ 115 ∷ 100 ∷ 102 ∷ 103 ∷ 104
    ∷ 106 ∷ 107 ∷ 108 ∷ 59 ∷ 39 ∷ 96 ∷ 0 ∷ 92 ∷ 122 ∷ 120 ∷ 99 ∷ 118 ∷ 98 ∷ 110 ∷ 109 ∷ 44 ∷ 46 ∷ 47
    ∷ 0 ∷ 42 ∷ 0 ∷ 32 ∷ []

-- `scancode_to_ascii_shifted`
abbrev pub scancode_to_ascii_shifted : List ℕ
scancode_to_ascii_shifted =
    0 ∷ 0 ∷ 33 ∷ 64 ∷ 35 ∷ 36 ∷ 37 ∷ 94 ∷ 38 ∷ 42 ∷ 40 ∷ 41 ∷ 95 ∷ 43 ∷ 8 ∷ 9 ∷ 81 ∷ 87 ∷ 69 ∷ 82
    ∷ 84 ∷ 89 ∷ 85 ∷ 73 ∷ 79 ∷ 80 ∷ 123 ∷ 125 ∷ 10 ∷ 0 ∷ 65 ∷ 83 ∷ 68 ∷ 70 ∷ 71 ∷ 72 ∷ 74 ∷ 75 ∷ 76
    ∷ 58 ∷ 34 ∷ 126 ∷ 0 ∷ 124 ∷ 90 ∷ 88 ∷ 67 ∷ 86 ∷ 66 ∷ 78 ∷ 77 ∷ 60 ∷ 62 ∷ 63 ∷ 0 ∷ 42 ∷ 0 ∷ 32
    ∷ []

-- The file's static variables.
pub record Keyboard : Type 0 where
  pub buffer : List ℕ
  pub read : ℕ
  pub write : ℕ
  pub shift : Bool

-- The variables as they are loaded.
abbrev pub loaded : Keyboard
loaded = record { buffer = replicate buffer_size 0; read = 0; write = 0; shift = false }

-- `keyboard_init_irq`, less the entry in the table of interrupt handlers.
unfoldable pub init_irq : Keyboard → Keyboard
init_irq k = record k { read = 0; write = 0 }

-- The character goes into the buffer, unless it is full.
unfoldable pub put : (ascii : ℕ) → Keyboard → Keyboard
put ascii k =
    let next_write = (k.write + 1) % buffer_size in
    if next_write == k.read
    then k
    else record k { buffer = set k.buffer k.write ascii; write = next_write }

-- The character of a scancode below 0x80; 0 where it has none.
unfoldable pub ascii_of : (shift : Bool) (scancode : ℕ) → ℕ
ascii_of shift scancode =
    get_or (if shift then scancode_to_ascii_shifted else scancode_to_ascii) scancode 0

-- `keyboard_irq_handler`, with the byte that `inb(0x60)` gives.
unfoldable pub irq_handler : (scancode : ℕ) → Keyboard → Keyboard
irq_handler scancode k =
    if (scancode == 0x2a) || (scancode == 0x36)
    then record k { shift = true }
    else if (scancode == 0xaa) || (scancode == 0xb6)
    then record k { shift = false }
    else if scancode / 128 % 2 == 0
    then (if ltb scancode (length scancode_to_ascii)
        then (if ascii_of k.shift scancode == 0 then k else put (ascii_of k.shift scancode) k)
        else k)
    else k

-- `keyboard_getchar`; `none` where it halts until the next interrupt, and then looks again.
unfoldable pub getchar : Keyboard → Option (ℕ × Keyboard)
getchar k =
    if k.read == k.write
    then none
    else some (get_or k.buffer k.read 0, record k { read = (k.read + 1) % buffer_size })
