-- ===== src/Libc/Texts.antt =====
-- The theorems on strings and printf at concrete inputs.
use beaner_os.Libc.Strings.{strstr}
use beaner_os.Libc.Strings.Find.{FoundIn, strstr-FoundIn}
use beaner_os.Libc.Printf.{
  printf, printed, stuck, word, string, printf_loop, percent_round, convert_at, read_precision,
  convert, emit, shown, plain_round, span, digits, format_unsigned,
}
use beaner_os.Libc.Printf.Ends.{printf_ends}
use beaner_os.Libc.Printf.Numbers.{read_number, read_number-format_unsigned}
use beaner_os.Base.{ℕ, ◌≡◌, ◌≢◌, refl, arith, List, [], ◌∷◌, some}

abbrev ls : List ℕ
ls = b'l' ∷ b's' ∷ []

abbrev lsa : List ℕ
lsa = b'l' ∷ b's' ∷ b'a' ∷ []

-- `%s: %u`
abbrev format : List ℕ
format = b'%' ∷ b's' ∷ b':' ∷ b' ' ∷ b'%' ∷ b'u' ∷ []

printf_test :
    printf format (string (some ls) ∷ word 42 ∷ [])
    ≡ printed (b'l' ∷ b's' ∷ b':' ∷ b' ' ∷ b'4' ∷ b'2' ∷ [])
unfolding printf printf_loop percent_round convert_at read_precision convert emit shown plain_round
    span format_unsigned digits
printf_test = refl

strstr-FoundIn_example : FoundIn lsa ls (strstr lsa ls)
strstr-FoundIn_example = strstr-FoundIn lsa ls

printf_ends_example : printf format (string (some ls) ∷ word 42 ∷ []) ≢ stuck
printf_ends_example = printf_ends format (string (some ls) ∷ word 42 ∷ [])

read_number-format_unsigned_example :
    read_number 10 0 (format_unsigned 4_000_000_000) ≡ 4_000_000_000
read_number-format_unsigned_example = read_number-format_unsigned 4_000_000_000 (omega arith)
