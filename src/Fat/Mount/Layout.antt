-- ===== src/Fat/Mount/Layout.antt =====
-- The layout that fat_mount of src/fs/fat.c takes from a boot sector.
use native.Mathlib.Nat.{mul_assoc}
use beaner_os.Fat.Mount.{ctz, geometry_of, fits_fat32, check_fat}
use beaner_os.Fat.Bytes.{Buf, get8, get16, get32}
use beaner_os.Fat.State.{Geometry, add32, ok}
use beaner_os.Fat.Chain.Free.{IsMounted}
use beaner_os.Base.{
  ℕ, ◌+◌, ◌*◌, ◌%◌, ◌^◌, ◌≤◌, ◌<◌, ◌≡◌, refl, ◌⊎◌, true, arith, ◌==◌, if◌then◌else◌, ◌/◌, inl, inr,
  Bool, false, not, ap, sym, ◌∙◌, eq-cases, ==_iff, ==-false_of_ne, ◌≢◌, suc, zero,
}

-- The reserved sectors have room for FsInfo, and the volume's tables end below 2 ^ 32.
pub record HasRoom (lba : ℕ) (b : Buf) : Type 0 where
  pub reserved : 2 ≤ get16 b 14
  pub below : lba + get16 b 14 + 2 * get32 b 36 < 2 ^ 32

-- What the driver relies on, of the numbers alone: `r` reserved sectors at `lba`, `n` sectors to a
-- table, the tables in either order.
layout :
    (geo : Geometry) (lba r n : ℕ)
    → 2 ≤ r
    → lba + r + 2 * n < 2 ^ 32
    → geo.clust_cnt ≡ n * 128 % 2 ^ 32
    → geo.info_sect ≡ add32 lba 1
    → ((geo.fat_sect0 ≡ lba + r) × ((geo.fat_sect1 ≡ 0) ⊎ (geo.fat_sect1 ≡ lba + r + n)))
      ⊎ ((geo.fat_sect0 ≡ lba + r + n) × ((geo.fat_sect1 ≡ 0) ⊎ (geo.fat_sect1 ≡ lba + r)))
    → IsMounted geo
layout geo lba r n two below cnt info where_ = record {
  laid = record {
    first = omega arith;
    fits0 = omega arith;
    fits1 = omega arith;
    apart = omega arith;
  };
  info = omega arith;
  info_out = omega arith;
}

-- One table is in use or both, and either comes first.
in_order :
    (use_first mirror : Bool) (a c : ℕ)
    → (((if use_first then a else c) ≡ a)
        × (((if mirror then (if use_first then c else a) else 0) ≡ 0)
            ⊎ ((if mirror then (if use_first then c else a) else 0) ≡ c)))
      ⊎ (((if use_first then a else c) ≡ c)
          × (((if mirror then (if use_first then c else a) else 0) ≡ 0)
              ⊎ ((if mirror then (if use_first then c else a) else 0) ≡ a)))
in_order true true a c = inl (refl, inr refl)
in_order true false a c = inl (refl, inl refl)
in_order false true a c = inr (refl, inr refl)
in_order false false a c = inr (refl, inl refl)

add32-small : (a b : ℕ) → a + b < 2 ^ 32 → add32 a b ≡ a + b
add32-small a b small = omega arith

-- The two facts of `fits_fat32` that the layout rests on.
pub fits_fat32-lem : (b : Buf) → fits_fat32 b ≡ true → (get8 b 16 ≡ 2) × (get16 b 48 ≡ 1)
unfolding fits_fat32
fits_fat32-lem b e = ground arith

pub check_fat-fits : (b : Buf) → check_fat b ≡ ok true → fits_fat32 b ≡ true
unfolding check_fat
check_fat-fits b e = ground arith

check_fat-size : (b : Buf) → check_fat b ≡ ok true → get8 b 13 ≢ 0
unfolding check_fat
check_fat-size b e z = ground arith

pub geometry_of-IsMounted :
    (lba : ℕ) (b : Buf) → fits_fat32 b ≡ true → HasRoom lba b → IsMounted (geometry_of lba b)
unfolding geometry_of
geometry_of-IsMounted lba b fits room =
    let (two, one) = fits_fat32-lem b fits in
    layout (geometry_of lba b) lba (get16 b 14) (get32 b 36) room.reserved room.below refl
      (rw one refl)
      (rw
        (
          add32-small lba (get16 b 14) (omega arith),
          add32-small (lba + get16 b 14) (get32 b 36) (omega arith),
        )
        (in_order (get16 b 40 % 2 == 0) (not (get16 b 40 / 2 ^ 7 % 2 == 0)) (lba + get16 b 14)
          (lba + get16 b 14 + get32 b 36)))

-- The layout of a volume at `lba`, field by field of its boot sector: 13 is the number of sectors to
-- a cluster, 14 that of the reserved sectors, 36 the length of a table, 40 the flags, 44 the cluster
-- of the root. Flag 0 chooses the second table, flag 7 mirrors it in the other.
pub record IsLayoutOf (lba : ℕ) (b : Buf) (geo : Geometry) : Type 0 where
  -- The highest power of two that divides the cluster size.
  pub shift : (q : ℕ) × (get8 b 13 ≡ (2 * q + 1) * 2 ^ geo.clust_shift)
  pub mask : geo.clust_msk + 1 ≡ get8 b 13
  pub count : geo.clust_cnt ≡ get32 b 36 * 128 % 2 ^ 32
  pub info : geo.info_sect ≡ lba + 1
  pub first : get16 b 40 % 2 ≡ 0 → geo.fat_sect0 ≡ lba + get16 b 14
  pub second : get16 b 40 % 2 ≡ 1 → geo.fat_sect0 ≡ lba + get16 b 14 + get32 b 36
  pub single : get16 b 40 / 2 ^ 7 % 2 ≡ 0 → geo.fat_sect1 ≡ 0
  pub mirror :
      get16 b 40 / 2 ^ 7 % 2 ≡ 1
      → geo.fat_sect0 + geo.fat_sect1 ≡ 2 * (lba + get16 b 14) + get32 b 36
  pub behind : geo.data_sect ≡ lba + get16 b 14 + 2 * get32 b 36
  pub root : geo.root_clust ≡ get32 b 44

ctz-odd : (width n : ℕ) → 0 < n → n < 2 ^ width → (q : ℕ) × (n ≡ (2 * q + 1) * 2 ^ ctz width n)
unfolding ctz
ctz-odd zero n positive lt = absurd (omega arith)
ctz-odd (suc k) n positive lt = elim (eq-cases (n % 2) 0) [
  | inl even ↦
      let (q, e) = ctz-odd k (n / 2) (omega arith) (omega arith) in
      (q, rw ((==_iff (n % 2) 0).1 even) (halves n (2 * q + 1) (ctz k (n / 2)) even e))
  | inr odd ↦ (n / 2, rw (==-false_of_ne (n % 2) 0 odd) (omega arith))
]
  where
    halves : (n r s : ℕ) → n % 2 ≡ 0 → n / 2 ≡ r * 2 ^ s → n ≡ r * 2 ^ suc s
    halves n r s even e =
        let double : 2 ^ suc s ≡ 2 ^ s * 2 = omega arith in
        let whole : n ≡ r * 2 ^ s * 2 = omega arith in
        whole ∙ mul_assoc r (2 ^ s) 2 ∙ ap (λ m. r * m) (sym double)

pub geometry_of-IsLayoutOf :
    (lba : ℕ) (b : Buf)
    → check_fat b ≡ ok true
    → HasRoom lba b
    → IsLayoutOf lba b (geometry_of lba b)
unfolding geometry_of
geometry_of-IsLayoutOf lba b valid room =
    let (two, one) = fits_fat32-lem b (check_fat-fits b valid) in
    let size : get8 b 13 ≢ 0 = check_fat-size b valid in
    let byte : get8 b 13 < 256 = omega arith in
    record {
      shift = ctz-odd 8 (get8 b 13) (omega arith) (omega arith);
      mask = omega arith;
      count = refl;
      info = rw one (omega (arith, room.below, room.reserved));
      first = λ e. rw ((==_iff (get16 b 40 % 2) 0).1 e) (omega (arith, room.below));
      second = λ e.
          rw (==-false_of_ne (get16 b 40 % 2) 0 (omega (arith, e))) (omega (arith, room.below));
      single = λ e. rw ((==_iff (get16 b 40 / 2 ^ 7 % 2) 0).1 e) refl;
      mirror = λ e.
          rw (==-false_of_ne (get16 b 40 / 2 ^ 7 % 2) 0 (omega (arith, e)))
            (both (get16 b 40 % 2 == 0) lba (get16 b 14) (get32 b 36) room.below);
      behind = rw two (omega (arith, room.below));
      root = refl;
    }
  where
    both :
        (use_first : Bool) (lba r n : ℕ)
        → lba + r + 2 * n < 2 ^ 32
        → (if use_first then add32 lba r else add32 (add32 lba r) n)
            + (if use_first then add32 (add32 lba r) n else add32 lba r)
          ≡ 2 * (lba + r) + n
    both true lba r n below = omega arith
    both false lba r n below = omega arith
