-- ===== src/Fat/Name/Short.antt =====
-- The short names that put_sfn_name of src/fs/fat.c makes.
use beaner_os.Fat.Name.{
  to_upper, special, is_one_of, sfn_char, sfn_base, skip_dot, pad, put_sfn_name, sfn_free, sfn_last,
}
use beaner_os.Base.{
  ℕ, zero, suc, leb, ◌==◌, Bool-cases, length, get_or, ◌≡◌, refl, ap, ◌≢◌, inl, inr, Bool, true,
  ◌&&◌, ◌||◌, List, [], ◌∷◌, ◌++◌, map, if◌then◌else◌, length-append, ◌∙◌, false, arith,
}

-- A character of a short name: a capital, a special character or an underscore.
unfoldable pub is_short : ℕ → Bool
is_short c = (leb b'A' c && leb c b'Z') || is_one_of c special

abbrev pub AllShort : List ℕ → Type 0
AllShort [] = Unit
AllShort (c ∷ name) = (is_short c ≡ true) × AllShort name

underscore : is_short b'_' ≡ true
unfolding is_short is_one_of
underscore = refl

choice-is_short :
    (u : ℕ)
    → is_short (if leb b'A' u && leb u b'Z' then u else if is_one_of u special then u else b'_')
      ≡ true
choice-is_short u = elim (Bool-cases (leb b'A' u && leb u b'Z')) [
  | inl e ↦ rw e (unfold is_short in rw e refl)
  | inr e ↦ elim (Bool-cases (is_one_of u special)) [
    | inl o ↦ rw (e, o) (unfold is_short in rw (e, o) refl)
    | inr o ↦ rw (e, o) underscore
  ]
]

sfn_char-is_short : (c : ℕ) → is_short (sfn_char c) ≡ true
unfolding sfn_char
sfn_char-is_short c = choice-is_short (to_upper c)

sfn_base-AllShort : (n : ℕ) (name : List ℕ) → AllShort (sfn_base n name).0
unfolding sfn_base
sfn_base-AllShort zero name = tt
sfn_base-AllShort (suc n) [] = tt
sfn_base-AllShort (suc n) (c ∷ name) = elim (Bool-cases (c == b'.')) [
  | inl e ↦ rw e tt
  | inr e ↦ rw e (sfn_char-is_short c, sfn_base-AllShort n name)
]

map-AllShort : (name : List ℕ) → AllShort (map sfn_char name)
map-AllShort [] = tt
map-AllShort (c ∷ name) = (sfn_char-is_short c, map-AllShort name)

pad-AllShort : (n : ℕ) (name : List ℕ) → AllShort name → AllShort (pad n name)
unfolding pad is_short is_one_of
pad-AllShort zero name s = tt
pad-AllShort (suc n) [] s = (refl, pad-AllShort n [] tt)
pad-AllShort (suc n) (c ∷ name) s = (s.0, pad-AllShort n name s.1)

length-pad : (n : ℕ) (name : List ℕ) → length (pad n name) ≡ n
unfolding pad
length-pad zero name = refl
length-pad (suc n) [] = ap suc (length-pad n [])
length-pad (suc n) (c ∷ name) = ap suc (length-pad n name)

append-AllShort : (s t : List ℕ) → AllShort s → AllShort t → AllShort (s ++ t)
append-AllShort [] t a b = b
append-AllShort (c ∷ s) t a b = (a.0, append-AllShort s t a.1 b)

head_ne :
    (name : List ℕ) (x : ℕ)
    → AllShort name
    → length name ≡ 11
    → is_short x ≡ false
    → get_or name 0 0 ≢ x
head_ne [] x s size out = absurd (omega (arith, size))
head_ne (c ∷ name) x s size out = λ e. cc (s.0)

free_not_short : is_short sfn_free ≡ false
unfolding is_short is_one_of
free_not_short = refl

last_not_short : is_short sfn_last ≡ false
unfolding is_short is_one_of
last_not_short = refl

-- `put_sfn_name` gives 11 bytes, each a capital or one of the special characters (space and
-- underscore among them), and the first is neither the mark of a free entry nor that of the last.
pub put_sfn_name-AllShort :
    (name : List ℕ)
    → (length (put_sfn_name name) ≡ 11)
      × AllShort (put_sfn_name name)
      × (get_or (put_sfn_name name) 0 0 ≢ sfn_free)
      × (get_or (put_sfn_name name) 0 0 ≢ sfn_last)
unfolding put_sfn_name
put_sfn_name-AllShort name =
    let (base, rest) = sfn_base 8 name in
    let short =
      append-AllShort (pad 8 base) (pad 3 (map sfn_char (skip_dot rest)))
        (pad-AllShort 8 base (sfn_base-AllShort 8 name))
        (pad-AllShort 3 _ (map-AllShort (skip_dot rest))) in
    let size : length (put_sfn_name name) ≡ 11 =
      length-append (pad 8 base) (pad 3 (map sfn_char (skip_dot rest)))
      ∙ omega (arith, length-pad 8 base, length-pad 3 (map sfn_char (skip_dot rest))) in
    (
      size,
      short,
      head_ne (put_sfn_name name) sfn_free short size free_not_short,
      head_ne (put_sfn_name name) sfn_last short size last_not_short,
    )
