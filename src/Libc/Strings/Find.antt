-- ===== src/Libc/Strings/Find.antt =====
-- strstr of src/libc/string against the places where one string stands in another.
use beaner_os.Libc.Strings.{stands_at, strstr}
use beaner_os.Base.{
  ℕ, zero, suc, ◌==◌, ==_iff, Bool-cases, drop, ◌<◌, ◌≡◌, refl, sym, ap, inl, inr, true, false,
  Option, none, some, List, [], ◌∷◌, ◌++◌, arith,
}

-- `h` begins with `needle`.
abbrev pub Begins : (needle h : List ℕ) → Type 0
Begins needle h = (r : List ℕ) × (h ≡ needle ++ r)

-- `r` is where `needle` stands first in `h`; NULL where it stands nowhere.
abbrev pub FoundIn : (h needle : List ℕ) → Option (List ℕ) → Type 0
FoundIn h needle none = (j : ℕ) → ¬ Begins needle (drop j h)
FoundIn h needle (some r) =
    (i : ℕ) × (r ≡ drop i h) × Begins needle r × ((j : ℕ) → j < i → ¬ Begins needle (drop j h))

stands_at-Begins : (needle h : List ℕ) → stands_at needle h ≡ true → Begins needle h
unfolding stands_at
stands_at-Begins [] h e = (h, refl)
stands_at-Begins (a ∷ needle) [] e = cc
stands_at-Begins (a ∷ needle) (b ∷ h) e = elim (Bool-cases (a == b)) [
  | inl q ↦
      let same : b ≡ a = ground arith in
      let (r, p) = stands_at-Begins needle h (rw q at e) in (r, cc)
  | inr ne ↦ let no : false ≡ true = rw ne at e in cc
]

tail_of : List ℕ → List ℕ
tail_of [] = []
tail_of (x ∷ xs) = xs

head_or : ℕ → List ℕ → ℕ
head_or d [] = d
head_or d (x ∷ xs) = x

Begins-stands_at : (needle h : List ℕ) → Begins needle h → stands_at needle h ≡ true
unfolding stands_at tail_of head_or
Begins-stands_at [] h (r, p) = refl
Begins-stands_at (a ∷ needle) [] (r, p) = cc
Begins-stands_at (a ∷ needle) (b ∷ h) (r, p) =
    let same : b ≡ a = ap (head_or 0) p in
    rw ((==_iff a b).1 (sym same)) (Begins-stands_at needle h (r, ap tail_of p))

not_Begins : (needle h : List ℕ) → stands_at needle h ≡ false → ¬ Begins needle h
not_Begins needle h e b = let t = Begins-stands_at needle h b in cc

FoundIn-later :
    (b : ℕ) (h needle : List ℕ) (r : Option (List ℕ))
    → ¬ Begins needle (b ∷ h)
    → FoundIn h needle r
    → FoundIn (b ∷ h) needle r
FoundIn-later b h needle none out f = nowhere
  where
    nowhere : (j : ℕ) → ¬ Begins needle (drop j (b ∷ h))
    nowhere zero = out
    nowhere (suc j) = f j
FoundIn-later b h needle (some r) out (i, e, begins, first) = (suc i, e, begins, before)
  where
    before : (j : ℕ) → j < suc i → ¬ Begins needle (drop j (b ∷ h))
    before zero lt = out
    before (suc j) lt = first j (omega arith)

-- `strstr` gives the first place at which the needle stands in the haystack, and NULL where it
-- stands at no place; the empty needle stands at the front.
pub strstr-FoundIn : (h needle : List ℕ) → FoundIn h needle (strstr h needle)
unfolding strstr
strstr-FoundIn h [] = (0, refl, (h, refl), λ j lt. absurd (omega arith))
strstr-FoundIn [] (a ∷ needle) = nowhere
  where
    nowhere : (j : ℕ) → ¬ Begins (a ∷ needle) (drop j [])
    nowhere zero (r, p) = cc
    nowhere (suc j) (r, p) = cc
strstr-FoundIn (b ∷ h) (a ∷ needle) = elim (Bool-cases (stands_at (a ∷ needle) (b ∷ h))) [
  | inl e ↦ rw e (0, refl, stands_at-Begins (a ∷ needle) (b ∷ h) e, λ j lt. absurd (omega arith))
  | inr ne ↦ rw ne (
      FoundIn-later b h (a ∷ needle) (strstr h (a ∷ needle)) (not_Begins (a ∷ needle) (b ∷ h) ne)
        (strstr-FoundIn h (a ∷ needle)))
]
