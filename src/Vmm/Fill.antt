-- ===== src/Vmm/Fill.antt =====
-- The loops of src/mm/vmm.c that write words to memory, and the flags of an entry.
use Prim.Native.Nat.{max, digits, bit_or-bitwise}
use beaner_os.Vmm.{put_word, clear_words, fill}
use beaner_os.Base.{
  ==-refl, eq-cases, ℕ, zero, suc, ◌+◌, ◌*◌, ◌/◌, ◌%◌, ◌≤◌, ◌<◌, bit_or, ◌≡◌, refl, sym, ap, ◌∙◌,
  ◌≢◌, inl, inr, arith,
}

-- The digits of `bit_or`, `n` of them at most.
abbrev either : (n a b : ℕ) → ℕ
either n a b = digits (λ c. c) max n a b

either-zero : (n a : ℕ) → a ≤ n → either n a 0 ≡ a
either-zero zero zero le = refl
either-zero zero (suc a) le = absurd (omega arith)
either-zero (suc n) zero le = refl
either-zero (suc n) (suc a) le = omega (arith, either-zero n (suc a / 2) (omega arith))

either-one : (n a : ℕ) → a ≤ n → a % 2 ≡ 0 → either n a 1 ≡ a + 1
either-one zero zero le e = refl
either-one zero (suc a) le e = absurd (omega arith)
either-one (suc n) zero le e = refl
either-one (suc n) (suc a) le e = omega (arith, either-zero n (suc a / 2) (omega arith))

either-three : (n a : ℕ) → a ≤ n → a % 4 ≡ 0 → either n a 3 ≡ a + 3
either-three zero zero le e = refl
either-three zero (suc a) le e = absurd (omega arith)
either-three (suc n) zero le e = refl
either-three (suc n) (suc a) le e =
    omega (arith, either-one n (suc a / 2) (omega arith) (omega arith))

-- PAGE_PRESENT | PAGE_RW on an address.
pub bit_or-three : (x : ℕ) → x % 4 ≡ 0 → bit_or x 3 ≡ x + 3
bit_or-three x e = bit_or-bitwise x 3 ∙ either-three x x (omega arith) e

pub fill-out :
    (slot val : ℕ → ℕ) (i n : ℕ) (word : ℕ → ℕ) (a : ℕ)
    → ((k : ℕ) → i ≤ k → k < i + n → a ≢ slot k)
    → fill slot val i n word a ≡ word a
unfolding fill
fill-out slot val i zero word a out = refl
fill-out slot val i (suc n) word a out =
    fill-out slot val (i + 1) n (put_word (slot i) (val i) word) a
      (λ k lo hi. out k (omega arith) (omega arith))
    ∙ ground (arith, out i (omega arith) (omega arith))

pub fill-at :
    (slot val : ℕ → ℕ) (i n : ℕ) (word : ℕ → ℕ) (k : ℕ)
    → ((a b : ℕ) → a < i + n → b < i + n → slot a ≡ slot b → a ≡ b)
    → i ≤ k
    → k < i + n
    → fill slot val i n word (slot k) ≡ val k
unfolding fill
fill-at slot val i zero word k inj lo hi = absurd (omega arith)
fill-at slot val i (suc n) word k inj lo hi = elim (eq-cases i k) [
  | inl e ↦
      fill-out slot val (i + 1) n (put_word (slot i) (val i) word) (slot k)
        (λ j lo' hi' same. omega (arith, inj k j (omega arith) (omega arith) same, e))
      ∙ ap (λ (j : ℕ). put_word (slot i) (val i) word (slot j)) (sym e)
      ∙ rw (==-refl (slot i)) (ap val e)
  | inr ne ↦
      fill-at slot val (i + 1) n (put_word (slot i) (val i) word) k
        (λ a b la lb. inj a b (omega arith) (omega arith)) (omega arith) (omega arith)
]

pub clear-out :
    (addr n : ℕ) (word : ℕ → ℕ) (a : ℕ)
    → ((k : ℕ) → k < n → a ≢ addr + 4 * k)
    → clear_words addr n word a ≡ word a
unfolding clear_words
clear-out addr zero word a out = refl
clear-out addr (suc n) word a out =
    clear-out addr n (put_word (addr + 4 * n) 0 word) a (λ k lt. out k (omega arith))
    ∙ ground (arith, out n (omega arith))

pub clear-at :
    (addr n : ℕ) (word : ℕ → ℕ) (k : ℕ) → k < n → clear_words addr n word (addr + 4 * k) ≡ 0
unfolding clear_words
clear-at addr zero word k lt = absurd (omega arith)
clear-at addr (suc n) word k lt = elim (eq-cases k n) [
  | inl e ↦
      clear-out addr n (put_word (addr + 4 * n) 0 word) (addr + 4 * k) (λ j lt' same. omega arith)
      ∙ ground arith
  | inr ne ↦ clear-at addr n (put_word (addr + 4 * n) 0 word) k (omega arith)
]
