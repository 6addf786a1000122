-- ===== src/Ata/Bytes.antt =====
-- The bytes of src/driver/ata.c as words.
use beaner_os.Ata.{words_of, bytes_of}
use beaner_os.Base.{ℕ, List, ◌+◌, ◌*◌, ◌/◌, ◌%◌, ◌^◌, ◌<◌, ◌≡◌, refl, [], ◌∷◌, arith}

-- An even number of bytes.
abbrev pub IsPaired : List ℕ → Type 0
IsPaired [] = Unit
IsPaired (lo ∷ []) = ⊥
IsPaired (lo ∷ hi ∷ bytes) = (lo < 256) × (hi < 256) × IsPaired bytes

-- The bytes of a buffer of even length are those that are stored where its words are read.
pub bytes_of-words_of : (bytes : List ℕ) → IsPaired bytes → bytes_of (words_of bytes) ≡ bytes
unfolding bytes_of words_of
bytes_of-words_of [] p = refl
bytes_of-words_of (lo ∷ []) p = absurd p
bytes_of-words_of (lo ∷ hi ∷ bytes) (a, b, p) =
    let low : (lo % 256 + hi % 256 * 2 ^ 8) % 256 ≡ lo = omega arith in
    let high : (lo % 256 + hi % 256 * 2 ^ 8) / 2 ^ 8 % 256 ≡ hi = omega arith in
    let rest = bytes_of-words_of bytes p in cc
