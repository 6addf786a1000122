-- ===== src/Libc/Printf/Numbers.antt =====
-- The numbers that printf in src/libc/stdio/printf.c prints, read back.
use beaner_os.Libc.Printf.{
  digits, decimal_digit, hex_digit, format_unsigned, format_hex, format_signed,
}
use beaner_os.Base.{
  ℕ, zero, suc, leb, if◌then◌else◌, ◌+◌, ◌-◌, ◌*◌, ◌<◌, ◌≡◌, refl, List, [], ◌∷◌, ◌++◌, reverse,
  ltb, ◌==◌, ltb→lt, Bool-cases, ◌/◌, ◌%◌, ◌^◌, sym, ◌∙◌, ◌≢◌, ◌⊎◌, inl, inr, true, reverse-append,
  arith,
}

-- The value of a digit of either base.
unfoldable pub digit_value : ℕ → ℕ
digit_value c = if leb c b'9' then c - b'0' else c - b'a' + 10

-- The number that a text of digits stands for, behind one of value `n`.
unfoldable pub read_number : (base n : ℕ) → List ℕ → ℕ
read_number base n [] = n
read_number base n (c ∷ s) = read_number base (n * base + digit_value c) s

read_number-append :
    (base n : ℕ) (s : List ℕ) (c : ℕ)
    → read_number base n (s ++ (c ∷ [])) ≡ read_number base n s * base + digit_value c
unfolding read_number
read_number-append base n [] c = refl
read_number-append base n (x ∷ s) c = read_number-append base (n * base + digit_value x) s c

-- `b` times itself `k` times.
power : (b k : ℕ) → ℕ
power b zero = 1
power b (suc k) = b * power b k

module _ (digit : ℕ → ℕ) (base : ℕ) (value : (n : ℕ) → digit_value (digit (n % base)) ≡ n % base)
    (smaller : (n p : ℕ) → n < base * p → n / base < p)
    (whole : (n : ℕ) → n / base * base + n % base ≡ n) where
  read_number-digits :
      (k n : ℕ) → n < power base k → read_number base 0 (reverse (digits digit base k n)) ≡ n
  unfolding digits power read_number
  read_number-digits zero n lt = omega arith
  read_number-digits (suc k) n lt = elim (Bool-cases (n == 0)) [
    | inl e ↦ let z : n ≡ 0 = ground arith in rw e (sym z)
    | inr e ↦
        let rest = digits digit base k (n / base) in
        let ih = read_number-digits k (n / base) (smaller n (power base k) lt) in
        rw (e, reverse-append (digit (n % base) ∷ []) rest)
          (read_number-append base 0 (reverse rest) (digit (n % base)) ∙ rw (ih, value n) (whole n))
  ]

decimal_value : (n : ℕ) → digit_value (decimal_digit (n % 10)) ≡ n % 10
unfolding digit_value
decimal_value n = ground arith

hex_value : (n : ℕ) → digit_value (hex_digit (n % 16)) ≡ n % 16
unfolding digit_value
hex_value n = ground arith

power_10 : power 10 10 ≡ 10_000_000_000
unfolding power
power_10 = refl

power_16 : power 16 8 ≡ 2 ^ 32
unfolding power
power_16 = refl

-- What `%u` prints is read back as the number, for every number of 32 bits.
pub read_number-format_unsigned : (n : ℕ) → n < 2 ^ 32 → read_number 10 0 (format_unsigned n) ≡ n
unfolding format_unsigned digit_value read_number
read_number-format_unsigned n lt = elim (Bool-cases (n == 0)) [
  | inl e ↦ let z : n ≡ 0 = ground arith in rw e (sym z)
  | inr e ↦ rw e (
      read_number-digits decimal_digit 10 decimal_value (λ m p h. omega arith) (λ m. omega arith) 10
        n (omega (arith, power_10)))
]

-- What `%x` prints is read back in base 16 as the number, for every number of 32 bits.
pub read_number-format_hex : (n : ℕ) → n < 2 ^ 32 → read_number 16 0 (format_hex n) ≡ n
unfolding format_hex digit_value read_number
read_number-format_hex n lt = elim (Bool-cases (n == 0)) [
  | inl e ↦ let z : n ≡ 0 = ground arith in rw e (sym z)
  | inr e ↦ rw e (
      read_number-digits hex_digit 16 hex_value (λ m p h. omega arith) (λ m. omega arith) 8 n
        (omega (arith, power_16)))
]

-- What `%d` prints of the bits `w` of an int other than the least one: its digits, behind a `-`
-- where it is negative, are read back as its magnitude.
pub read_number-format_signed :
    (w : ℕ)
    → w < 2 ^ 32
    → w ≢ 2 ^ 31
    → ((w < 2 ^ 31) × (read_number 10 0 (format_signed w) ≡ w))
      ⊎ ((2 ^ 31 < w)
          × ((s : List ℕ) × (format_signed w ≡ b'-' ∷ s) × (read_number 10 0 s ≡ 2 ^ 32 - w)))
unfolding format_signed
read_number-format_signed w lt ne = elim (Bool-cases (ltb w (2 ^ 31))) [
  | inl e ↦ inl (ltb→lt _ _ e, rw e (read_number-format_unsigned w lt))
  | inr e ↦
      let small : ltb ((2 ^ 32 - w) % 2 ^ 32) (2 ^ 31) ≡ true = ground arith in
      let same : (2 ^ 32 - w) % 2 ^ 32 ≡ 2 ^ 32 - w = ground arith in
      inr (
        ground arith,
        (
          format_unsigned ((2 ^ 32 - w) % 2 ^ 32),
          rw (e, small) refl,
          read_number-format_unsigned ((2 ^ 32 - w) % 2 ^ 32) (omega arith) ∙ same,
        ),
      )
]
