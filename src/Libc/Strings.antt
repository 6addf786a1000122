-- ===== src/Libc/Strings.antt =====
-- The string functions of src/libc/string. A C string is the list of its characters before the NUL,
-- and a pointer into it is the rest of the list from there.
pub mod Order
pub mod Find
use beaner_os.Base.{
  ℕ, zero, suc, ◌+◌, ◌-◌, ◌%◌, leb, ◌==◌, if◌then◌else◌, Bool, true, false, ℤ, pos, negsuc, List,
  [], ◌∷◌, Option, none, some,
}

-- `*s`
abbrev pub head : List ℕ → ℕ
head [] = 0
head (c ∷ s) = c

unfoldable pub strlen : List ℕ → ℕ
strlen [] = 0
strlen (c ∷ s) = strlen s + 1

-- `a - b` of two unsigned chars.
unfoldable pub difference : (a b : ℕ) → ℤ
difference a b = if leb b a then pos (a - b) else negsuc (b - a - 1)

unfoldable pub strcmp : List ℕ → List ℕ → ℤ
strcmp [] t = difference 0 (head t)
strcmp (a ∷ s) [] = difference a 0
strcmp (a ∷ s) (b ∷ t) = let rest = strcmp s t in if a == b then rest else difference a b

unfoldable pub strncmp : List ℕ → List ℕ → (n : ℕ) → ℤ
strncmp s t zero = pos 0
strncmp [] t (suc n) = difference 0 (head t)
strncmp (a ∷ s) [] (suc n) = difference a 0
strncmp (a ∷ s) (b ∷ t) (suc n) =
    let rest = strncmp s t n in if a == b then rest else difference a b

-- The `n` bytes that `strncpy` writes at `dest`; there is no NUL where `src` has `n` characters or
-- more.
unfoldable pub strncpy : (src : List ℕ) (n : ℕ) → List ℕ
strncpy src zero = []
strncpy [] (suc n) = 0 ∷ strncpy [] n
strncpy (c ∷ src) (suc n) = c ∷ strncpy src n

-- The NUL is found too: it is the empty rest.
unfoldable pub strchr : (s : List ℕ) (c : ℕ) → Option (List ℕ)
strchr [] c = if c % 256 == 0 then some [] else none
strchr (a ∷ s) c = let rest = strchr s c in if a == c % 256 then some (a ∷ s) else rest

-- The inner loop of strstr: does `needle` stand at the front of `h`?
unfoldable pub stands_at : (needle h : List ℕ) → Bool
stands_at [] h = true
stands_at (a ∷ needle) [] = false
stands_at (a ∷ needle) (b ∷ h) = let rest = stands_at needle h in if a == b then rest else false

unfoldable pub strstr : (haystack needle : List ℕ) → Option (List ℕ)
strstr haystack [] = some haystack
strstr [] (a ∷ needle) = none
strstr (b ∷ h) (a ∷ needle) =
    let rest = strstr h (a ∷ needle) in
    if stands_at (a ∷ needle) (b ∷ h) then some (b ∷ h) else rest
