-- ===== src/Fat/File/Slice.antt =====
-- The bytes of a file of src/fs/fat.c, sector by sector along its chain of clusters.
use native.Mathlib.Nat.{le-div_iff_mul-le, div-mul-le_self}
use beaner_os.Base.Masks.{bit_positive}
use beaner_os.Fat.Bytes.{Buf}
use beaner_os.Fat.State.{Geometry}
use beaner_os.Fat.File.Position.{clust_idx, sector_at}
use beaner_os.Base.{
  length, get_or, take, drop, ℕ, zero, suc, ◌+◌, ◌-◌, ◌*◌, ◌/◌, ◌%◌, ◌^◌, ◌≤◌, ◌<◌, ◌≡◌, refl, sym,
  ap, ◌∙◌, List, [], ◌∷◌, ◌++◌, arith, take-drop,
}

-- Byte `n` of the file, and `len` bytes from byte `off` on.
abbrev pub byte_at : Geometry → (content : ℕ → Buf) → (cs : List ℕ) (n : ℕ) → ℕ
byte_at geo content cs n = get_or (content (sector_at geo cs n)) (n % 512) 0

abbrev pub bytes_from : Geometry → (content : ℕ → Buf) → (cs : List ℕ) (off len : ℕ) → List ℕ
bytes_from geo content cs off zero = []
bytes_from geo content cs off (suc len) =
    byte_at geo content cs off ∷ bytes_from geo content cs (off + 1) len

div_mono : (p : ℕ) {a b : ℕ} → 0 < p → a ≤ b → a / p ≤ b / p
div_mono p {a} {b} positive le =
    (le-div_iff_mul-le positive).1 (omega (arith, div-mul-le_self a p, le))

module _ (geo : Geometry) (content : ℕ → Buf) (cs : List ℕ) where
  slice :
      (n i off : ℕ) (b : Buf)
      → i + n ≤ length b
      → ((j : ℕ) → j < n → byte_at geo content cs (off + j) ≡ get_or b (i + j) 0)
      → take n (drop i b) ≡ bytes_from geo content cs off n
  slice zero i off b le same = refl
  slice (suc n) i off b le same =
      take-drop b i n 0 (omega arith)
      ∙ ap (λ v. v ∷ take n (drop (suc i) b))
          (sym (
            ap (byte_at geo content cs) (omega arith)
            ∙ same 0 (omega arith)
            ∙ ap (λ k. get_or b k 0) (omega arith)))
      ∙ ap (λ vs. byte_at geo content cs off ∷ vs)
          (slice n (suc i) (off + 1) b (omega arith) (λ j lt.
            ap (byte_at geo content cs) (omega arith)
            ∙ same (suc j) (omega arith)
            ∙ ap (λ k. get_or b k 0) (omega arith)))

  -- The rest of a sector.
  pub slice_sector :
      (n off : ℕ)
      → n ≤ 512 - off % 512
      → length (content (sector_at geo cs off)) ≡ 512
      → take n (drop (off % 512) (content (sector_at geo cs off))) ≡ bytes_from geo content cs off n
  slice_sector n off le size =
      slice n (off % 512) off (content (sector_at geo cs off)) (omega (arith, size)) (λ j lt.
        ap
          (λ q.
            get_or
              (content (
                geo.data_sect
                + (get_or cs (q / 2 ^ geo.clust_shift) 0 - 2) * 2 ^ geo.clust_shift
                + q % 2 ^ geo.clust_shift))
              ((off + j) % 512) 0)
          (sector_same j lt)
        ∙ ap (λ k. get_or (content (sector_at geo cs off)) k 0) (omega arith))
    where
      sector_same : (j : ℕ) → j < n → (off + j) / 512 ≡ off / 512
      sector_same j lt = omega arith

  bytes_from_cons :
      (n m off : ℕ)
      → bytes_from geo content cs (off + 1) n ++ bytes_from geo content cs (off + 1 + n) m
        ≡ bytes_from geo content cs (off + 1) (n + m)
      → bytes_from geo content cs off (suc n) ++ bytes_from geo content cs (off + suc n) m
        ≡ bytes_from geo content cs off (suc (n + m))
  bytes_from_cons n m off e =
      ap (λ vs. byte_at geo content cs off ∷ vs)
        (ap (λ k. bytes_from geo content cs (off + 1) n ++ bytes_from geo content cs k m) later ∙ e)
    where
      later : off + suc n ≡ off + 1 + n
      later = omega arith

  pub bytes_from-append :
      (n m off : ℕ)
      → bytes_from geo content cs off n ++ bytes_from geo content cs (off + n) m
        ≡ bytes_from geo content cs off (n + m)
  bytes_from-append zero m off =
      ap (λ k. bytes_from geo content cs k m) zero_right
      ∙ ap (bytes_from geo content cs off) zero_left
    where
      zero_right : off + 0 ≡ off
      zero_right = omega arith

      zero_left : m ≡ 0 + m
      zero_left = omega arith
  bytes_from-append (suc n) m off =
      bytes_from_cons n m off (bytes_from-append n m (off + 1))
      ∙ ap (bytes_from geo content cs off) suc_left
    where
      suc_left : suc (n + m) ≡ suc n + m
      suc_left = omega arith

  pub idx_below : (a b : ℕ) → a ≤ b → clust_idx geo b < length cs → clust_idx geo a < length cs
  idx_below a b le lt = omega (
    arith,
    div_mono (2 ^ geo.clust_shift) (bit_positive geo.clust_shift) (div_mono 512 (omega arith) le),
  )
