-- ===== src/Keyboard/Examples.antt =====
-- The theorems on src/driver/keyboard.c at concrete inputs.
use beaner_os.Base.{
  ℕ, ◌≡◌, ◌⊎◌, refl, true, some, none, [], ◌∷◌, replicate, arith, length-replicate, suc, ap,
}
use beaner_os.Keyboard.{Keyboard, put, ascii_of, irq_handler, getchar}
use beaner_os.Keyboard.Layout.{typed}
use beaner_os.Keyboard.Queue.{
  IsValid, from, contents, held, enqueue_typed, irq_handler-typed, getchar-contents,
}

-- Two characters wait, round the end of the buffer, and shift is held.
abbrev waiting : Keyboard
waiting = record { buffer = 98 ∷ replicate 255 97; read = 255; write = 1; shift = true }

waiting-IsValid : IsValid waiting
waiting-IsValid = record {
  size = ap suc (length-replicate {A = ℕ} 255 97);
  read_in = omega arith;
  write_in = omega arith;
}

contents_test : contents waiting ≡ 97 ∷ 98 ∷ []
unfolding contents from
contents_test = refl

-- The key of `a`, with shift.
irq_handler_test : contents (irq_handler 0x1e waiting) ≡ 97 ∷ 98 ∷ 65 ∷ []
unfolding contents from irq_handler put ascii_of
irq_handler_test = refl

irq_handler-typed_example :
    IsValid (irq_handler 0x1e waiting)
    × ((irq_handler 0x1e waiting).shift ≡ held true 0x1e)
    × (contents (irq_handler 0x1e waiting) ≡ enqueue_typed (typed true 0x1e) (contents waiting))
irq_handler-typed_example = irq_handler-typed 0x1e waiting waiting-IsValid (omega arith)

getchar-contents_example :
    ((contents waiting ≡ []) × (getchar waiting ≡ none))
    ⊎ ((c : ℕ) × (k : Keyboard) × (getchar waiting ≡ some (c, k))
        × (contents waiting ≡ c ∷ contents k)
        × IsValid k)
getchar-contents_example = getchar-contents waiting waiting-IsValid
