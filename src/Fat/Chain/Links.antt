-- ===== src/Fat/Chain/Links.antt =====
-- What a cluster chain is, over the low 28 bits of an allocation table of src/fs/fat.c.
use beaner_os.Fat.Table.{used, last, classify}
use beaner_os.Base.{
  ◌==◌, if◌then◌else◌, Bool-cases, length, ℕ, zero, suc, ◌+◌, ◌≤◌, ◌<◌, ◌≡◌, refl, ap, ◌∙◌, ◌≢◌,
  inl, inr, Bool, true, false, ◌||◌, some, List, [], ◌∷◌, arith,
}

abbrev pub has : ℕ → List ℕ → Bool
has c [] = false
has c (x ∷ xs) = (c == x) || has c xs

-- From cluster `c` the table leads through the distinct clusters `cs` to an end-of-chain mark.
pub data Chain (table : ℕ → ℕ) (cnt : ℕ) : ℕ → List ℕ → Type 0 where
  end : {c : ℕ} → c < cnt → classify cnt (table c) ≡ some last → Chain table cnt c (c ∷ [])
  link :
      {c n : ℕ} {cs : List ℕ}
      → c < cnt
      → table c ≡ n
      → classify cnt n ≡ some used
      → has c cs ≡ false
      → Chain table cnt n cs
      → Chain table cnt c (c ∷ cs)

-- A chain survives any change that spares its clusters.
pub frame :
    (table table' : ℕ → ℕ) {cnt c : ℕ} {cs : List ℕ}
    → Chain table cnt c cs
    → ((x : ℕ) → x < cnt → has x cs ≡ true → table' x ≡ table x)
    → Chain table' cnt c cs
frame table table' {cnt} (end {c} lt e) same =
    end lt (ap (classify cnt) (same c lt (ground arith)) ∙ e)
frame table table' (link {c} lt e u out s) same =
    link lt (same c lt (ground arith) ∙ e) u out
      (frame table table' s (λ x lt' i. same x lt' (ground arith)))

-- The clusters of a chain are clusters of the volume.
pub has-lt :
    {table : ℕ → ℕ} {cnt c : ℕ} {cs : List ℕ} (x : ℕ)
    → Chain table cnt c cs
    → has x cs ≡ true
    → x < cnt
has-lt x (end lt e) i = ground arith
has-lt x (link lt e u out s) i = ground (arith, has-lt x s)

-- Distinct numbers below `n`, as many as `k`: there are not more than `n`.
abbrev pub Distinct : List ℕ → Type 0
Distinct [] = Unit
Distinct (x ∷ xs) = (has x xs ≡ false) × Distinct xs

pub Chain-Distinct : {table : ℕ → ℕ} {cnt c : ℕ} {cs : List ℕ} → Chain table cnt c cs → Distinct cs
Chain-Distinct (end lt e) = (refl, tt)
Chain-Distinct (link lt e u out s) = (out, Chain-Distinct s)

-- `xs` less `n`.
erase : ℕ → List ℕ → List ℕ
erase n [] = []
erase n (x ∷ xs) = if n == x then erase n xs else x ∷ erase n xs

has-erase : (n x : ℕ) (xs : List ℕ) → has x (erase n xs) ≡ true → (has x xs ≡ true) × (x ≢ n)
unfolding erase
has-erase n x [] h = cc
has-erase n x (y ∷ ys) h = ground (arith, has-erase n x ys)

has-erase-false : (n x : ℕ) (xs : List ℕ) → has x xs ≡ false → has x (erase n xs) ≡ false
unfolding erase
has-erase-false n x [] h = refl
has-erase-false n x (y ∷ ys) h = ground (arith, has-erase-false n x ys)

erase-Distinct : (n : ℕ) (xs : List ℕ) → Distinct xs → Distinct (erase n xs)
unfolding erase
erase-Distinct n [] d = tt
erase-Distinct n (x ∷ xs) d = elim (Bool-cases (n == x)) [
  | inl e ↦ rw e (erase-Distinct n xs d.1)
  | inr ne ↦ rw ne (has-erase-false n x xs d.0, erase-Distinct n xs d.1)
]

erase-fresh : (n : ℕ) (xs : List ℕ) → has n xs ≡ false → length (erase n xs) ≡ length xs
unfolding erase
erase-fresh n [] h = refl
erase-fresh n (x ∷ xs) h = ground (arith, erase-fresh n xs)

length-erase : (n : ℕ) (xs : List ℕ) → Distinct xs → length xs ≤ length (erase n xs) + 1
unfolding erase
length-erase n [] d = omega arith
length-erase n (x ∷ xs) d = ground (arith, length-erase n xs d.1, erase-fresh n xs)

pub length-Distinct :
    (n : ℕ) (xs : List ℕ) → Distinct xs → ((x : ℕ) → has x xs ≡ true → x < n) → length xs ≤ n
length-Distinct n [] d h = omega arith
length-Distinct zero (x ∷ xs) d h = absurd (omega (arith, h x (ground arith)))
length-Distinct (suc n) (x ∷ xs) d h =
    let rest =
      length-Distinct n (erase n (x ∷ xs)) (erase-Distinct n (x ∷ xs) d)
        (λ y i. omega (arith, has-erase n y (x ∷ xs) i, h y (has-erase n y (x ∷ xs) i).0)) in
    omega (arith, rest, length-erase n (x ∷ xs) d)
