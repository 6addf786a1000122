-- ===== src/Libc/Printf/Ends.antt =====
-- The loop of printf in src/libc/stdio/printf.c takes some of the format in each round.
use beaner_os.Libc.Printf.{
  Arg, Outcome, failed, stuck, Round, go, stop, span, read_digits, read_precision, star_precision,
  digit_precision, dot_precision, emit, with_word, with_string, convert, convert_at, plain_round,
  percent_round, after, printf_loop, printf,
}
use beaner_os.Base.{
  ℕ, zero, suc, ltb, Bool-cases, length, ◌-◌, ◌^◌, ◌≤◌, ◌≢◌, inl, inr, List, [], ◌∷◌, arith, ◌==◌,
  if◌then◌else◌, ◌+◌, ◌*◌, ◌%◌, Bool, true, false, ◌||◌, Option, none, some,
}

-- A round leaves at most `n` characters of the format, or ends with a value.
abbrev Shrinks : ℕ → Round → Type 0
Shrinks n (go out rest args) = length rest ≤ n
Shrinks n (stop r) = r ≢ stuck

not_stuck : {out : List ℕ} → failed out ≢ stuck
not_stuck e = cc

emit-Shrinks :
    (n : ℕ) (out chars rest : List ℕ) (args : List Arg)
    → length rest ≤ n
    → Shrinks n (emit out chars rest args)
unfolding emit
emit-Shrinks n out chars rest args le =
    elim (Bool-cases (ltb (2 ^ 31 - 1 - length out) (length chars))) [
      | inl e ↦ rw e (λ q. cc)
      | inr e ↦ rw e le
    ]

length-span : (s : List ℕ) → length (span s).1 ≤ length s
unfolding span
length-span [] = omega arith
length-span (c ∷ s) = ground (arith, length-span s)

length-read_digits : (n : ℕ) (s : List ℕ) → length (read_digits n s).1 ≤ length s
unfolding read_digits
length-read_digits n [] = omega arith
length-read_digits n (c ∷ s) = ground (arith, length-read_digits ((n * 10 + (c - b'0')) % 2 ^ 32) s)

-- What is left behind a precision.
abbrev LeavesAtMost : ℕ → Option (Option ℕ × List ℕ × List Arg) → Type 0
LeavesAtMost n none = Unit
LeavesAtMost n (some (precision, rest, args)) = length rest ≤ n

star_precision-LeavesAtMost :
    (s : List ℕ) (args : List Arg) → LeavesAtMost (length s) (star_precision s args)
unfolding star_precision
star_precision-LeavesAtMost s [] = tt
star_precision-LeavesAtMost s (Arg.word w ∷ args) = omega arith
star_precision-LeavesAtMost s (Arg.string t ∷ args) = tt

LeavesAtMost-more :
    (n m : ℕ) (r : Option (Option ℕ × List ℕ × List Arg))
    → n ≤ m
    → LeavesAtMost n r
    → LeavesAtMost m r
LeavesAtMost-more n m none le l = tt
LeavesAtMost-more n m (some (p, rest, args)) le l = omega arith

dot_precision-LeavesAtMost :
    (s : List ℕ) (args : List Arg) → LeavesAtMost (length s) (dot_precision s args)
unfolding dot_precision digit_precision
dot_precision-LeavesAtMost [] args = omega arith
dot_precision-LeavesAtMost (c ∷ s) args = elim (Bool-cases (c == b'*')) [
  | inl e ↦ rw e (
      LeavesAtMost-more (length s) (length (c ∷ s)) (star_precision s args) (omega arith)
        (star_precision-LeavesAtMost s args))
  | inr e ↦ rw e (length-read_digits 0 (c ∷ s))
]

read_precision-LeavesAtMost :
    (s : List ℕ) (args : List Arg) → LeavesAtMost (length s) (read_precision s args)
unfolding read_precision
read_precision-LeavesAtMost [] args = omega arith
read_precision-LeavesAtMost (c ∷ s) args = elim (Bool-cases (c == b'.')) [
  | inl e ↦ rw e (
      LeavesAtMost-more (length s) (length (c ∷ s)) (dot_precision s args) (omega arith)
        (dot_precision-LeavesAtMost s args))
  | inr e ↦ rw e (omega arith)
]

with_word-Shrinks :
    (n : ℕ) (args : List Arg) (k : ℕ → List Arg → Round)
    → ((w : ℕ) (more : List Arg) → Shrinks n (k w more))
    → Shrinks n (with_word args k)
with_word-Shrinks n [] k h = λ q. cc
with_word-Shrinks n (Arg.word w ∷ args) k h = h w args
with_word-Shrinks n (Arg.string s ∷ args) k h = λ q. cc

with_string-Shrinks :
    (n : ℕ) (args : List Arg) (k : Option (List ℕ) → List Arg → Round)
    → ((s : Option (List ℕ)) (more : List Arg) → Shrinks n (k s more))
    → Shrinks n (with_string args k)
with_string-Shrinks n [] k h = λ q. cc
with_string-Shrinks n (Arg.word w ∷ args) k h = λ q. cc
with_string-Shrinks n (Arg.string s ∷ args) k h = h s args

either : (P : Round → Type 0) (b : Bool) (x y : Round) → P x → P y → P (if b then x else y)
either P true x y p q = p
either P false x y p q = q

convert-Shrinks :
    (c : ℕ) (begun out : List ℕ) (p : Option ℕ) (rest : List ℕ) (args : List Arg)
    → Shrinks (length rest) (convert c begun out p rest args)
unfolding convert
convert-Shrinks c begun out p rest args =
    let n = length rest in
    let P : Round → Type 0 = Shrinks n in
    either P (c == b'c') _ _
      (with_word-Shrinks n args _ (λ w more. emit-Shrinks n out _ rest more (omega arith)))
      (either P (c == b's') _ _
        (with_string-Shrinks n args _ (λ s more. emit-Shrinks n out _ rest more (omega arith)))
        (either P ((c == b'd') || (c == b'i')) _ _
          (with_word-Shrinks n args _ (λ w more. emit-Shrinks n out _ rest more (omega arith)))
          (either P (c == b'u') _ _
            (with_word-Shrinks n args _ (λ w more. emit-Shrinks n out _ rest more (omega arith)))
            (either P (c == b'x') _ _ (with_word-Shrinks n args _ (λ w more. omega arith))
              (emit-Shrinks n out begun [] args (omega arith))))))

Shrinks-more : (n m : ℕ) (r : Round) → n ≤ m → Shrinks n r → Shrinks m r
Shrinks-more n m (go out rest args) le h = omega arith
Shrinks-more n m (stop r) le h = h

convert_at-Shrinks :
    (n : ℕ) (begun out : List ℕ) (r : Option (Option ℕ × List ℕ × List Arg))
    → LeavesAtMost n r
    → Shrinks n (convert_at begun out r)
unfolding convert_at
convert_at-Shrinks n begun out none l = λ q. cc
convert_at-Shrinks n begun out (some (p, [], args)) l =
    emit-Shrinks n out begun [] args (omega arith)
convert_at-Shrinks n begun out (some (p, c ∷ rest, args)) l =
    Shrinks-more (length rest) n (convert c begun out p rest args) (omega arith)
      (convert-Shrinks c begun out p rest args)

plain_round-Shrinks :
    (c : ℕ) (s out : List ℕ) (args : List Arg) → Shrinks (length s) (plain_round c s out args)
unfolding plain_round
plain_round-Shrinks c s out args = emit-Shrinks (length s) out _ (span s).1 args (length-span s)

percent_round-Shrinks :
    (s out : List ℕ) (args : List Arg) → Shrinks (length s) (percent_round s out args)
unfolding percent_round
percent_round-Shrinks [] out args =
    convert_at-Shrinks 0 (b'%' ∷ []) out (read_precision [] args)
      (read_precision-LeavesAtMost [] args)
percent_round-Shrinks (d ∷ s) out args =
    either (Shrinks (length (d ∷ s))) (d == b'%') _ _
      (Shrinks-more (length s) (length (d ∷ s)) _ (omega arith) (plain_round-Shrinks d s out args))
      (convert_at-Shrinks (length (d ∷ s)) (b'%' ∷ d ∷ s) out (read_precision (d ∷ s) args)
        (read_precision-LeavesAtMost (d ∷ s) args))

onward :
    (n : ℕ) (k : List ℕ → List ℕ → List Arg → Outcome)
    → ((out rest : List ℕ) (args : List Arg) → length rest ≤ n → k out rest args ≢ stuck)
    → (r : Round) → Shrinks n r
    → after r k ≢ stuck
onward n k ih (go out rest args) h = ih out rest args h
onward n k ih (stop r) h = h

printf_loop-ends :
    (k : ℕ) (out format : List ℕ) (args : List Arg)
    → length format ≤ k
    → printf_loop k out format args ≢ stuck
unfolding printf_loop
printf_loop-ends k out [] args le = λ q. cc
printf_loop-ends zero out (c ∷ s) args le = absurd (omega arith)
printf_loop-ends (suc k) out (c ∷ s) args le =
    onward (length s) (printf_loop k) (λ o r m l. printf_loop-ends k o r m (omega arith)) _
      (either (Shrinks (length s)) (c == b'%') _ _ (percent_round-Shrinks s out args)
        (plain_round-Shrinks c s out args))

-- `printf` of any format and any arguments ends within one round for each character of the format.
pub printf_ends : (format : List ℕ) (args : List Arg) → printf format args ≢ stuck
unfolding printf
printf_ends format args = printf_loop-ends (length format) [] format args (omega arith)
