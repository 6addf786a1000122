-- ===== src/Fat/Name.antt =====
-- Names in directory entries of src/fs/fat.c: short names of 11 bytes, fragments of long names, and
-- the parts of a path. A name with its length is the list of its characters.
pub mod Short
pub mod Long
use beaner_os.Fat.Bytes.{Buf, get8}
use beaner_os.Base.{
  ℕ, zero, suc, leb, ◌==◌, if◌then◌else◌, length, get_or, set, take, drop, ◌+◌, ◌-◌, ◌*◌, ◌/◌, ◌%◌,
  Bool, true, false, ◌&&◌, ◌||◌, List, [], ◌∷◌, ◌++◌, map,
}

unfoldable pub to_upper : ℕ → ℕ
to_upper c = if leb b'a' c && leb c b'z' then c - 32 else c

-- The first part of a path, and what is behind it; `subpath_len` is the length of the first.
unfoldable pub split_path : List ℕ → List ℕ × List ℕ
split_path [] = ([], [])
split_path (c ∷ s) =
    let (part, rest) = split_path s in if c == b'/' then ([], c ∷ s) else (c ∷ part, rest)

unfoldable pub subpath_len : List ℕ → ℕ
subpath_len str = length (split_path str).0

-- `while (*path == '/') path++;`
unfoldable pub skip_slashes : List ℕ → List ℕ
skip_slashes [] = []
skip_slashes (c ∷ s) = let rest = skip_slashes s in if c == b'/' then rest else c ∷ s

unfoldable pub last_subpath_len : List ℕ → ℕ
last_subpath_len str =
    let (part, rest) = split_path str in
    if length part == 0 then 0 else elim (skip_slashes rest) [ [] ↦ length part | c ∷ s ↦ 0 ]

-- One step of get_crc, of an unsigned char.
abbrev pub crc_step : (sum c : ℕ) → ℕ
crc_step sum c = (sum % 2 * 128 + sum / 2 + c) % 256

unfoldable pub crc_from : (sum : ℕ) → List ℕ → ℕ
crc_from sum [] = sum
crc_from sum (c ∷ name) = crc_from (crc_step sum c) name

unfoldable pub get_crc : (name : List ℕ) → ℕ
get_crc name = crc_from 0 name

-- `!#$%&'()-@^_`{}~ `, the special characters of a short name.
abbrev pub special : List ℕ
special = 33 ∷ 35 ∷ 36 ∷ 37 ∷ 38 ∷ 39 ∷ 40 ∷ 41 ∷ 45 ∷ 64 ∷ 94 ∷ 95 ∷ 96 ∷ 123 ∷ 125 ∷ 126 ∷ 32 ∷ []

unfoldable pub is_one_of : ℕ → List ℕ → Bool
is_one_of c [] = false
is_one_of c (x ∷ xs) = (c == x) || is_one_of c xs

unfoldable pub sfn_char : ℕ → ℕ
sfn_char c =
    let u = to_upper c in
    if leb b'A' u && leb u b'Z' then u else if is_one_of u special then u else b'_'

-- `SFN_PAD`, `SFN_FREE` and `SFN_LAST`.
abbrev pub sfn_pad : ℕ
sfn_pad = 0x20

abbrev pub sfn_free : ℕ
sfn_free = 0xe5

abbrev pub sfn_last : ℕ
sfn_last = 0

-- Up to `n` characters before the first dot, and the rest of the name.
unfoldable pub sfn_base : (n : ℕ) → List ℕ → List ℕ × List ℕ
sfn_base zero name = ([], name)
sfn_base (suc n) [] = ([], [])
sfn_base (suc n) (c ∷ name) =
    let (base, rest) = sfn_base n name in
    if c == b'.' then ([], c ∷ name) else (sfn_char c ∷ base, rest)

-- `while (i < len && name[i++] != '.');`
unfoldable pub skip_dot : List ℕ → List ℕ
skip_dot [] = []
skip_dot (c ∷ name) = let rest = skip_dot name in if c == b'.' then name else rest

-- `n` characters, those that are missing `SFN_PAD`.
unfoldable pub pad : (n : ℕ) → List ℕ → List ℕ
pad zero name = []
pad (suc n) [] = sfn_pad ∷ pad n []
pad (suc n) (c ∷ name) = c ∷ pad n name

unfoldable pub put_sfn_name : List ℕ → List ℕ
put_sfn_name name =
    let (base, rest) = sfn_base 8 name in pad 8 base ++ pad 3 (map sfn_char (skip_dot rest))

-- Up to the first `SFN_PAD`.
unfoldable pub before_pad : List ℕ → List ℕ
before_pad [] = []
before_pad (c ∷ name) = let rest = before_pad name in if c == sfn_pad then [] else c ∷ rest

-- What parse_sfn_name puts into `g_buf`.
unfoldable pub parse_sfn_name : (sfn_name : List ℕ) → List ℕ
parse_sfn_name sfn_name =
    let ext = drop 8 sfn_name in
    before_pad (take 8 sfn_name)
    ++ ((if get_or ext 0 0 == sfn_pad then [] else b'.' ∷ []) ++ before_pad (take 3 ext))

-- `g_lfn_indices`
abbrev pub lfn_indices : List ℕ
lfn_indices = 1 ∷ 3 ∷ 5 ∷ 7 ∷ 9 ∷ 14 ∷ 16 ∷ 18 ∷ 20 ∷ 22 ∷ 24 ∷ 28 ∷ 30 ∷ []

-- Two bytes of the entry at `base` of the buffer.
abbrev pub put_pair : (b : Buf) (base k lo hi : ℕ) → Buf
put_pair b base k lo hi = set (set b (base + k) lo) (base + k + 1) hi

-- The indices behind the terminator.
unfoldable pub put_filler : Buf → (base : ℕ) → (indices : List ℕ) → Buf
put_filler b base [] = b
put_filler b base (k ∷ ks) = put_filler (put_pair b base k 0xff 0xff) base ks

unfoldable pub put_frag : Buf → (base : ℕ) → (indices : List ℕ) → (name : List ℕ) → Buf
put_frag b base [] name = b
put_frag b base (k ∷ ks) [] = put_filler (put_pair b base k 0 0) base ks
put_frag b base (k ∷ ks) (c ∷ name) = put_frag (put_pair b base k (c % 256) 0) base ks name

unfoldable pub put_lfn_name_frag : Buf → (base : ℕ) → (name : List ℕ) → Buf
put_lfn_name_frag b base name = put_frag b base lfn_indices name

-- The inner loop of parse_lfn_name: the characters of a fragment, and whether it is well formed.
unfoldable pub parse_frag : Buf → (base : ℕ) → (indices : List ℕ) → List ℕ × Bool
parse_frag b base [] = ([], true)
parse_frag b base (k ∷ ks) =
    let c = get8 b (base + k) in
    let (name, fine) = parse_frag b base ks in
    if c == 0xff then ([], false) else if c == 0 then ([], true) else (c ∷ name, fine)
