-- ===== src/Keyboard/Queue.antt =====
-- The ring buffer of src/driver/keyboard.c against a queue.
use beaner_os.Base.{
  ltb, ◌==◌, if◌then◌else◌, ℕ, zero, suc, ◌+◌, ◌%◌, ◌<◌, ◌≡◌, refl, Bool, true, false, Option, none,
  some, List, [], ◌∷◌, ◌++◌, get_or, set, length, arith, length-set, get_or-set_self, get_or-set_ne,
  leb, Bool-cases, ◌-◌, ◌≤◌, ap, ◌∙◌, inl, inr, not, ◌&&◌, ◌||◌, lt→ltb, ==_iff, ◌≢◌, ◌⊎◌, ◌/◌, sym,
}
use beaner_os.Keyboard.Layout.{typed, ascii_of-key_char}
use beaner_os.Keyboard.{Keyboard, buffer_size, put, ascii_of, irq_handler, getchar}

-- The indices stay inside the buffer.
pub record IsValid (k : Keyboard) : Type 0 where
  pub size : length k.buffer ≡ buffer_size
  pub read_in : k.read < buffer_size
  pub write_in : k.write < buffer_size

-- `n` characters from index `i` on, round the end of the buffer.
unfoldable pub from : (buffer : List ℕ) (n i : ℕ) → List ℕ
from buffer zero i = []
from buffer (suc n) i = get_or buffer i 0 ∷ from buffer n ((i + 1) % buffer_size)

-- From index `i` up to index `w`.
abbrev pub distance : (i w : ℕ) → ℕ
distance i w = (w + buffer_size - i) % buffer_size

-- The characters that wait, oldest first.
unfoldable pub contents : Keyboard → List ℕ
contents k = from k.buffer (distance k.read k.write) k.read

-- A queue that drops what would be its 256th character.
unfoldable pub enqueue : ℕ → List ℕ → List ℕ
enqueue c q = if ltb (length q) 255 then q ++ (c ∷ []) else q

length-from : (buffer : List ℕ) (n i : ℕ) → length (from buffer n i) ≡ n
unfolding from
length-from buffer zero i = refl
length-from buffer (suc n) i = omega (arith, length-from buffer n ((i + 1) % buffer_size))

from-set :
    (buffer : List ℕ) (n i w c : ℕ)
    → i < buffer_size
    → w < buffer_size
    → n ≤ distance i w
    → from (set buffer w c) n i ≡ from buffer n i
unfolding from
from-set buffer zero i w c lt lw le = refl
from-set buffer (suc n) i w c lt lw le =
    let head : get_or (set buffer w c) i 0 ≡ get_or buffer i 0 =
      get_or-set_ne buffer w i c 0 (λ e. omega arith) in
    let tail = from-set buffer n ((i + 1) % buffer_size) w c (omega arith) lw (omega arith) in cc

from-append :
    (buffer : List ℕ) (n i : ℕ)
    → i < buffer_size
    → from buffer (suc n) i ≡ from buffer n i ++ (get_or buffer ((i + n) % buffer_size) 0 ∷ [])
unfolding from
from-append buffer zero i lt =
    let e : i ≡ (i + 0) % buffer_size = omega arith in ap (λ (j : ℕ). get_or buffer j 0 ∷ []) e
from-append buffer (suc n) i lt =
    let j = (i + 1) % buffer_size in
    let e : (j + n) % buffer_size ≡ (i + suc n) % buffer_size = omega arith in
    ap (λ (t : List ℕ). get_or buffer i 0 ∷ t)
      (from-append buffer n j (omega arith)
        ∙ ap (λ (x : ℕ). from buffer n j ++ (get_or buffer x 0 ∷ [])) e)

-- A character more behind the others.
from-put :
    (buffer : List ℕ) (n i w c : ℕ)
    → length buffer ≡ buffer_size
    → i < buffer_size
    → w < buffer_size
    → n ≡ distance i w
    → from (set buffer w c) (suc n) i ≡ from buffer n i ++ (c ∷ [])
from-put buffer n i w c size lt lw e =
    let at : (i + n) % buffer_size ≡ w = omega arith in
    from-append (set buffer w c) n i lt
    ∙ rw
        (
          at,
          get_or-set_self buffer w c 0 (omega arith),
          from-set buffer n i w c lt lw (omega arith),
        )
        refl

full-distance :
    (r w : ℕ)
    → r < buffer_size
    → w < buffer_size
    → ((w + 1) % buffer_size == r) ≡ true
    → distance r w ≡ 255
full-distance r w hr hw e = omega (arith, (==_iff ((w + 1) % buffer_size) r).0 e)

ne_of_==-false : (a b : ℕ) → (a == b) ≡ false → a ≢ b
ne_of_==-false a b e = ground arith

room-distance :
    (r w : ℕ)
    → r < buffer_size
    → w < buffer_size
    → ((w + 1) % buffer_size == r) ≡ false
    → (distance r w < 255) × (distance r ((w + 1) % buffer_size) ≡ suc (distance r w))
room-distance r w hr hw e = let ne = ne_of_==-false ((w + 1) % buffer_size) r e in omega (arith, ne)

next-in : (w : ℕ) → (w + 1) % buffer_size < buffer_size
next-in w = omega arith

not_lt→ltb : (a b : ℕ) → b ≤ a → ltb a b ≡ false
not_lt→ltb a b le = ground arith

-- `put` on the queue.
pub put-enqueue :
    (c : ℕ) (k : Keyboard)
    → IsValid k
    → IsValid (put c k) × (contents (put c k) ≡ enqueue c (contents k))
unfolding put contents enqueue
put-enqueue c k v =
    let n = distance k.read k.write in
    let len : length (from k.buffer n k.read) ≡ n = length-from k.buffer n k.read in
    elim (Bool-cases ((k.write + 1) % buffer_size == k.read)) [
      | inl full ↦
          let no : ltb (length (from k.buffer n k.read)) 255 ≡ false =
            not_lt→ltb _ _
              (omega (arith, len, full-distance k.read k.write v.read_in v.write_in full)) in
          rw (full, no) (v, refl)
      | inr room ↦
          let (less, more) = room-distance k.read k.write v.read_in v.write_in room in
          let yes : ltb (length (from k.buffer n k.read)) 255 ≡ true =
            lt→ltb _ _ (omega (arith, len, less)) in
          rw (room, yes)
            (
              record {
                size = length-set k.buffer k.write c ∙ v.size;
                read_in = v.read_in;
                write_in = next-in k.write;
              },
              ap (λ (m : ℕ). from (set k.buffer k.write c) m k.read) more
                  ∙ from-put k.buffer n k.read k.write c v.size v.read_in v.write_in refl,
            )
    ]

-- What the code stores for a key.
unfoldable stored : (shift : Bool) (scancode : ℕ) → Option ℕ
stored shift scancode =
    if (scancode == 0x2a) || (scancode == 0x36)
    then none
    else if leb 58 scancode
    then none
    else if ascii_of shift scancode == 0
    then none
    else some (ascii_of shift scancode)

-- Whether shift is held after the scancode.
unfoldable pub held : (shift : Bool) (scancode : ℕ) → Bool
held shift scancode =
    ((scancode == 0x2a) || (scancode == 0x36))
    || (shift && not ((scancode == 0xaa) || (scancode == 0xb6)))

abbrev pub enqueue_typed : Option ℕ → List ℕ → List ℕ
enqueue_typed none q = q
enqueue_typed (some c) q = enqueue c q

put-shift : (c : ℕ) (k : Keyboard) → (put c k).shift ≡ k.shift
unfolding put
put-shift c k = elim (Bool-cases ((k.write + 1) % buffer_size == k.read)) [
  | inl full ↦ rw full refl
  | inr room ↦ rw room refl
]

contents-shift : (sh : Bool) (k : Keyboard) → contents (record k { shift = sh }) ≡ contents k
unfolding contents
contents-shift sh k = refl

held_same : (sh : Bool) → (false || (sh && not false)) ≡ sh
held_same sh = ground arith

held_none : (sh : Bool) → (false || (sh && not true)) ≡ false
held_none sh = ground arith

-- A code of 58 or more has no character.
no_char : (s : ℕ) → ((s == 0xaa) || (s == 0xb6)) ≡ true → leb 58 s ≡ true
no_char s e = ground arith

no_char_high : (s : ℕ) → (s / 128 % 2 == 0) ≡ false → leb 58 s ≡ true
no_char_high s e = ground arith

no_char_above : (s : ℕ) → ltb s 58 ≡ false → leb 58 s ≡ true
no_char_above s e = ground arith

char_below : (s : ℕ) → ltb s 58 ≡ true → leb 58 s ≡ false
char_below s e = ground arith

irq_handler-stored :
    (scancode : ℕ) (k : Keyboard)
    → IsValid k
    → scancode < 256
    → IsValid (irq_handler scancode k)
      × ((irq_handler scancode k).shift ≡ held k.shift scancode)
      × (contents (irq_handler scancode k) ≡ enqueue_typed (stored k.shift scancode) (contents k))
unfolding irq_handler stored held
irq_handler-stored s k v small = elim (Bool-cases ((s == 0x2a) || (s == 0x36))) [
  | inl a ↦ rw a (
    record { size = v.size; read_in = v.read_in; write_in = v.write_in },
    refl,
    contents-shift true k,
  )
  | inr a ↦ elim (Bool-cases ((s == 0xaa) || (s == 0xb6))) [
    | inl b ↦
        rw (a, b, no_char s b)
          (
            record { size = v.size; read_in = v.read_in; write_in = v.write_in },
            sym (held_none k.shift),
            contents-shift false k,
          )
    | inr b ↦ elim (Bool-cases (s / 128 % 2 == 0)) [
      | inl c ↦ elim (Bool-cases (ltb s 58)) [
        | inl d ↦ elim (Bool-cases (ascii_of k.shift s == 0)) [
          | inl z ↦ rw (a, b, c, d, z, char_below s d) (v, sym (held_same k.shift), refl)
          | inr z ↦
              let (w, e) = put-enqueue (ascii_of k.shift s) k v in
              rw (a, b, c, d, z, char_below s d)
                (w, put-shift (ascii_of k.shift s) k ∙ sym (held_same k.shift), e)
        ]
        | inr d ↦ rw (a, b, c, d, no_char_above s d) (v, sym (held_same k.shift), refl)
      ]
      | inr c ↦ rw (a, b, c, no_char_high s c) (v, sym (held_same k.shift), refl)
    ]
  ]
]

stored-typed : (shift : Bool) (scancode : ℕ) → stored shift scancode ≡ typed shift scancode
unfolding stored typed
stored-typed shift s = elim (Bool-cases (leb 58 s)) [
  | inl out ↦ rw out refl
  | inr in_ ↦ rw (in_, ascii_of-key_char shift s (ground arith)) refl
]

-- Of valid indices and a byte as the scancode, the interrupt handler keeps the indices valid,
-- remembers whether shift is held, and puts the character that the key has on a US keyboard, with
-- or without shift, if any, behind those that wait, up to 255 of them.
pub irq_handler-typed :
    (scancode : ℕ) (k : Keyboard)
    → IsValid k
    → scancode < 256
    → IsValid (irq_handler scancode k)
      × ((irq_handler scancode k).shift ≡ held k.shift scancode)
      × (contents (irq_handler scancode k) ≡ enqueue_typed (typed k.shift scancode) (contents k))
irq_handler-typed scancode k v small =
    let (valid, sh, stands) = irq_handler-stored scancode k v small in
    (valid, sh, stands ∙ ap (λ t. enqueue_typed t (contents k)) (stored-typed k.shift scancode))

empty-distance : (r w : ℕ) → r < buffer_size → r ≡ w → distance r w ≡ 0
empty-distance r w hr e = omega arith

next-distance :
    (r w : ℕ)
    → r < buffer_size
    → w < buffer_size
    → r ≢ w
    → distance r w ≡ suc (distance ((r + 1) % buffer_size) w)
next-distance r w hr hw ne = omega arith

-- Of valid indices, `keyboard_getchar` waits exactly where no character does; otherwise it gives
-- the oldest, the others still wait, and the indices stay valid.
pub getchar-contents :
    (k : Keyboard)
    → IsValid k
    → ((contents k ≡ []) × (getchar k ≡ none))
      ⊎ ((c : ℕ) × (k' : Keyboard) × (getchar k ≡ some (c, k'))
          × (contents k ≡ c ∷ contents k')
          × IsValid k')
unfolding getchar contents from
getchar-contents k v = elim (Bool-cases (k.read == k.write)) [
  | inl e ↦ inl (
    ap (λ (n : ℕ). from k.buffer n k.read)
        (empty-distance k.read k.write v.read_in ((==_iff k.read k.write).0 e)),
    rw e refl,
  )
  | inr ne ↦ inr (
    get_or k.buffer k.read 0,
    record k { read = (k.read + 1) % buffer_size },
    rw ne refl,
    ap (λ (n : ℕ). from k.buffer n k.read)
        (next-distance k.read k.write v.read_in v.write_in (ne_of_==-false k.read k.write ne)),
    record { size = v.size; read_in = next-in k.read; write_in = v.write_in },
  )
]
