-- ===== src/Libc/Printf.antt =====
-- printf of src/libc/stdio/printf.c. What putchar sends to the terminal is the list `out`; putchar
-- gives its argument back and so never fails. `written` is the length of `out`.
pub mod Numbers
pub mod Ends
use beaner_os.Base.{
  ℕ, zero, suc, ltb, leb, ◌==◌, if◌then◌else◌, length, take, ◌+◌, ◌-◌, ◌*◌, ◌/◌, ◌%◌, ◌^◌, ◌&&◌,
  ◌||◌, Option, none, some, List, [], ◌∷◌, ◌++◌, reverse,
}

-- An argument: the bits of an int, or a string that may be NULL.
pub data Arg : Type 0 where
  word : ℕ → Arg
  string : Option (List ℕ) → Arg

-- The value of printf: `written`, or -1. In both cases what was printed. `undefined` is an argument
-- that is missing or of another type, `stuck` that the fuel ran out.
pub data Outcome : Type 0 where
  printed failed : (out : List ℕ) → Outcome
  undefined stuck : Outcome

-- `'0' + n`, and `hex[n]`.
abbrev pub decimal_digit : ℕ → ℕ
decimal_digit n = b'0' + n

abbrev pub hex_digit : ℕ → ℕ
hex_digit n = if ltb n 10 then b'0' + n else b'a' + (n - 10)

-- `while (num > 0) { buf[i++] = ...; num /= base; }`, the last digit first.
unfoldable pub digits : (digit : ℕ → ℕ) (base fuel num : ℕ) → List ℕ
digits digit base zero num = []
digits digit base (suc k) num =
    let rest = digits digit base k (num / base) in
    if num == 0 then [] else digit (num % base) ∷ rest

-- The buffer of `%u`, printed from its end. A number of 32 bits has at most ten digits.
unfoldable pub format_unsigned : ℕ → List ℕ
format_unsigned num = if num == 0 then b'0' ∷ [] else reverse (digits decimal_digit 10 10 num)

-- `%x`: at most eight digits.
unfoldable pub format_hex : ℕ → List ℕ
format_hex num = if num == 0 then b'0' ∷ [] else reverse (digits hex_digit 16 8 num)

-- `%d` of the bits `w`. `-num` of the least int is itself, so that its loop ends at once.
unfoldable pub format_signed : ℕ → List ℕ
format_signed w =
    let num = (2 ^ 32 - w) % 2 ^ 32 in
    if ltb w (2 ^ 31)
    then format_unsigned w
    else if ltb num (2 ^ 31)
    then b'-' ∷ format_unsigned num
    else b'-' ∷ []

-- The characters before the next `%`, and the rest.
unfoldable pub span : List ℕ → List ℕ × List ℕ
span [] = ([], [])
span (c ∷ s) = let (plain, rest) = span s in if c == b'%' then ([], c ∷ s) else (c ∷ plain, rest)

-- The digits of a precision, an int.
unfoldable pub read_digits : (requested : ℕ) → List ℕ → ℕ × List ℕ
read_digits requested [] = (requested, [])
read_digits requested (c ∷ s) =
    let rest = read_digits ((requested * 10 + (c - b'0')) % 2 ^ 32) s in
    if leb b'0' c && leb c b'9' then rest else (requested, c ∷ s)

-- A precision of 0 or more; `none` stands for -1.
abbrev pub precision_of : ℕ → Option ℕ
precision_of w = if ltb w (2 ^ 31) then some w else none

-- `.*`, and `.` with digits.
unfoldable pub star_precision : List ℕ → List Arg → Option (Option ℕ × List ℕ × List Arg)
star_precision s [] = none
star_precision s (string t ∷ args) = none
star_precision s (word w ∷ args) = some (precision_of w, s, args)

unfoldable pub digit_precision : List ℕ → List Arg → Option (Option ℕ × List ℕ × List Arg)
digit_precision s args =
    let (requested, rest) = read_digits 0 s in some (precision_of requested, rest, args)

unfoldable pub dot_precision : List ℕ → List Arg → Option (Option ℕ × List ℕ × List Arg)
dot_precision [] args = some (some 0, [], args)
dot_precision (c ∷ s) args =
    if c == b'*' then star_precision s args else digit_precision (c ∷ s) args

-- The precision, and the format and the arguments behind it; `none` is an argument that is missing.
unfoldable pub read_precision : List ℕ → List Arg → Option (Option ℕ × List ℕ × List Arg)
read_precision [] args = some (none, [], args)
read_precision (c ∷ s) args = if c == b'.' then dot_precision s args else some (none, c ∷ s, args)

-- One round of the loop: what is printed so far, the format and the arguments that are left, or
-- the end.
pub data Round : Type 0 where
  go : (out rest : List ℕ) → List Arg → Round
  stop : Outcome → Round

-- `if (maxrem < amount) return -1;`, and the characters printed.
unfoldable pub emit : (out chars rest : List ℕ) → List Arg → Round
emit out chars rest args =
    if ltb (2 ^ 31 - 1 - length out) (length chars)
    then stop (failed out)
    else go (out ++ chars) rest args

-- `va_arg` of an int and of a string.
abbrev pub with_word : List Arg → (ℕ → List Arg → Round) → Round
with_word [] k = stop undefined
with_word (string s ∷ args) k = stop undefined
with_word (word w ∷ args) k = k w args

abbrev pub with_string : List Arg → (Option (List ℕ) → List Arg → Round) → Round
with_string [] k = stop undefined
with_string (word w ∷ args) k = stop undefined
with_string (string s ∷ args) k = k s args

-- A string up to the precision.
abbrev pub cut : List ℕ → (precision : Option ℕ) → List ℕ
cut s none = s
cut s (some n) = take n s

-- What `%s` prints of its argument; `(null)` for NULL.
unfoldable pub shown : Option (List ℕ) → (precision : Option ℕ) → List ℕ
shown none precision = cut (b'(' ∷ b'n' ∷ b'u' ∷ b'l' ∷ b'l' ∷ b')' ∷ []) precision
shown (some s) precision = cut s precision

-- The conversion `c` in the format that begins at `begun`. `%x` has no test of `maxrem`.
unfoldable pub convert :
    (c : ℕ) (begun out : List ℕ) (precision : Option ℕ) (rest : List ℕ) → List Arg → Round
convert c begun out precision rest args =
    if c == b'c'
    then with_word args (λ w more. emit out (w % 256 ∷ []) rest more)
    else if c == b's'
    then with_string args (λ s more. emit out (shown s precision) rest more)
    else if (c == b'd') || (c == b'i')
    then with_word args (λ w more. emit out (format_signed w) rest more)
    else if c == b'u'
    then with_word args (λ w more. emit out (format_unsigned w) rest more)
    else if c == b'x'
    then with_word args (λ w more. go (out ++ format_hex w) rest more)
    else emit out begun [] args

unfoldable pub convert_at : (begun out : List ℕ) → Option (Option ℕ × List ℕ × List Arg) → Round
convert_at begun out none = stop undefined
convert_at begun out (some (precision, [], args)) = emit out begun [] args
convert_at begun out (some (precision, c ∷ rest, args)) = convert c begun out precision rest args

-- A character that stands for itself, and those up to the next `%`.
unfoldable pub plain_round : (c : ℕ) (s out : List ℕ) → List Arg → Round
plain_round c s out args = let (chars, rest) = span s in emit out (c ∷ chars) rest args

-- Behind a `%`.
unfoldable pub percent_round : (s out : List ℕ) → List Arg → Round
percent_round [] out args = convert_at (b'%' ∷ []) out (read_precision [] args)
percent_round (d ∷ s) out args =
    if d == b'%'
    then plain_round d s out args
    else convert_at (b'%' ∷ d ∷ s) out (read_precision (d ∷ s) args)

abbrev pub after : Round → (List ℕ → List ℕ → List Arg → Outcome) → Outcome
after (go out rest args) k = k out rest args
after (stop r) k = r

unfoldable pub printf_loop : (fuel : ℕ) (out format : List ℕ) → List Arg → Outcome
printf_loop k out [] args = printed out
printf_loop zero out (c ∷ s) args = stuck
printf_loop (suc k) out (c ∷ s) args =
    after (if c == b'%' then percent_round s out args else plain_round c s out args) (printf_loop k)

-- Each round takes a character of the format at least.
unfoldable pub printf : (format : List ℕ) → List Arg → Outcome
printf format = printf_loop (length format) [] format

unfoldable pub puts : List ℕ → Outcome
puts s = printf (b'%' ∷ b's' ∷ 10 ∷ []) (string (some s) ∷ [])
