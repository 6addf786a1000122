-- ===== src/Pmm/Bits.antt =====
-- The bit operations of src/mm/pmm.c on a byte, checked at every byte and bit.
use beaner_os.Base.Bits.{holds_from, holds_at}
use beaner_os.Pmm.{set_bit, clear_bit, test_bit}
use beaner_os.Base.{◌==◌, ℕ, ◌<◌, ◌≡◌, refl, Bool, true, false, not, ◌&&◌, ◌||◌, arith}

same : Bool → Bool → Bool
same true b = b
same false b = not b

same_sound : (a b : Bool) → same a b ≡ true → a ≡ b
unfolding same
same_sound a b h = ground arith

abbrev triples : (ℕ → ℕ → ℕ → Bool) → Bool
triples t = holds_from (λ b. holds_from (λ o. holds_from (λ q. t b o q) 0 8) 0 8) 0 256

triples_sound :
    (t : ℕ → ℕ → ℕ → Bool) (b o q : ℕ) → triples t ≡ true → b < 256 → o < 8 → q < 8 → t b o q ≡ true
triples_sound t b o q h hb ho hq = holds_at (t b o) 0 8 q (omega arith) hq (
    holds_at (λ o'. holds_from (t b o') 0 8) 0 8 o (omega arith) ho
      (holds_at (λ b'. holds_from (λ o'. holds_from (t b' o') 0 8) 0 8) 0 256 b (omega arith) hb h))

set_table : triples (λ b o q. same (test_bit (set_bit b o) q) ((o == q) || test_bit b q)) ≡ true
unfolding holds_from same set_bit test_bit
set_table = refl

clear_table :
    triples (λ b o q. same (test_bit (clear_bit b o) q) (not (o == q) && test_bit b q)) ≡ true
unfolding holds_from same clear_bit test_bit
clear_table = refl

module _ (b o q : ℕ) (hb : b < 256) (ho : o < 8) (hq : q < 8) where
  pub test_bit-set_bit : test_bit (set_bit b o) q ≡ ((o == q) || test_bit b q)
  test_bit-set_bit = same_sound _ _ (triples_sound _ b o q set_table hb ho hq)

  pub test_bit-clear_bit : test_bit (clear_bit b o) q ≡ (not (o == q) && test_bit b q)
  test_bit-clear_bit = same_sound _ _ (triples_sound _ b o q clear_table hb ho hq)

pub set_bit-lt : (b o : ℕ) → set_bit b o < 256
unfolding set_bit
set_bit-lt b o = omega arith

pub clear_bit-lt : (b o : ℕ) → clear_bit b o < 256
unfolding clear_bit
clear_bit-lt b o = omega arith
