-- ===== src/Libc/Strings/Order.antt =====
-- strcmp and strncmp of src/libc/string against the first character in which two strings differ.
use beaner_os.Base.{
  ℕ, ◌<◌, ◌≡◌, ◌≢◌, ◌⊎◌, inl, inr, refl, sym, ◌==◌, ℤ, pos, List, [], ◌∷◌, ◌++◌, arith, Bool-cases,
}
use beaner_os.Libc.Strings.{head, difference, strcmp}

-- Every character is one before the NUL.
abbrev pub IsString : List ℕ → Type 0
IsString [] = Unit
IsString (c ∷ s) = (c ≢ 0) × (c < 256) × IsString s

-- `r` is how `s` and `t` compare: 0 for the same string, else the difference of the first
-- characters behind what they have in common.
abbrev pub Compares : (s t : List ℕ) → ℤ → Type 0
Compares s t r =
    ((s ≡ t) × (r ≡ pos 0))
    ⊎ ((p s' t' : List ℕ) × (s ≡ p ++ s')
        × (t ≡ p ++ t')
        × (head s' ≢ head t')
        × (r ≡ difference (head s') (head t')))

Compares-cons :
    (a b : ℕ) (s t : List ℕ) (r : ℤ) → a ≡ b → Compares s t r → Compares (a ∷ s) (b ∷ t) r
Compares-cons a b s t r e (inl (q, z)) = inl (cc, z)
Compares-cons a b s t r e (inr (p, s', t', q, w, ne, z)) = inr (a ∷ p, s', t', cc, cc, ne, z)

-- `strcmp` of two strings gives 0 where they are equal; otherwise the difference of the first
-- characters in which they differ, the NUL counted as 0.
pub strcmp-Compares : (s t : List ℕ) → IsString s → IsString t → Compares s t (strcmp s t)
unfolding strcmp difference
strcmp-Compares [] [] v w = inl (refl, refl)
strcmp-Compares [] (b ∷ t) v w = inr ([], [], b ∷ t, refl, refl, (λ e. w.0 (sym e)), refl)
strcmp-Compares (a ∷ s) [] v w = inr ([], a ∷ s, [], refl, refl, v.0, refl)
strcmp-Compares (a ∷ s) (b ∷ t) v w = elim (Bool-cases (a == b)) [
  | inl e ↦ rw e (Compares-cons a b s t (strcmp s t) (ground arith) (strcmp-Compares s t v.2 w.2))
  | inr ne ↦ rw ne (inr ([], a ∷ s, b ∷ t, refl, refl, ground arith, refl))
]
