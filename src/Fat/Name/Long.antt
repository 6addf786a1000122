-- ===== src/Fat/Name/Long.antt =====
-- Fragments of long names in src/fs/fat.c are read as they are written.
use beaner_os.Fat.Bytes.{Buf}
use beaner_os.Fat.Name.{lfn_indices, put_pair, put_filler, put_frag, put_lfn_name_frag, parse_frag}
use beaner_os.Base.{
  ℕ, ==-false_of_ne, length, get_or, set, length-set, get_or-set_self, get_or-set_ne, ◌+◌, ◌%◌, ◌≤◌,
  ◌<◌, ◌≡◌, refl, ap, ◌∙◌, true, List, [], ◌∷◌, arith,
}

-- Characters that stand for themselves in a fragment.
abbrev pub IsLong : List ℕ → Type 0
IsLong [] = Unit
IsLong (c ∷ name) = (0 < c) × (c < 0xff) × IsLong name

-- Each index leaves room for two bytes before the next one, and all lie in an entry.
abbrev IsSpaced : (from : ℕ) → List ℕ → Type 0
IsSpaced from [] = Unit
IsSpaced from (k ∷ ks) = (from ≤ k) × (k < 31) × IsSpaced (k + 2) ks

put_pair-before :
    (b : Buf) (base k lo hi j : ℕ)
    → j < base + k
    → get_or (put_pair b base k lo hi) j 0 ≡ get_or b j 0
put_pair-before b base k lo hi j lt =
    get_or-set_ne (set b (base + k) lo) (base + k + 1) j hi 0 (λ e. omega arith)
    ∙ get_or-set_ne b (base + k) j lo 0 (λ e. omega arith)

put_filler-before :
    (b : Buf) (base from : ℕ) (ks : List ℕ) (j : ℕ)
    → IsSpaced from ks
    → j < base + from
    → get_or (put_filler b base ks) j 0 ≡ get_or b j 0
unfolding put_filler
put_filler-before b base from [] j s lt = refl
put_filler-before b base from (k ∷ ks) j s lt =
    put_filler-before (put_pair b base k 0xff 0xff) base (k + 2) ks j s.2 (omega arith)
    ∙ put_pair-before b base k 0xff 0xff j (omega arith)

put_frag-before :
    (b : Buf) (base from : ℕ) (ks name : List ℕ) (j : ℕ)
    → IsSpaced from ks
    → j < base + from
    → get_or (put_frag b base ks name) j 0 ≡ get_or b j 0
unfolding put_frag
put_frag-before b base from [] name j s lt = refl
put_frag-before b base from (k ∷ ks) [] j s lt =
    put_filler-before (put_pair b base k 0 0) base (k + 2) ks j s.2 (omega arith)
    ∙ put_pair-before b base k 0 0 j (omega arith)
put_frag-before b base from (k ∷ ks) (c ∷ name) j s lt =
    put_frag-before (put_pair b base k (c % 256) 0) base (k + 2) ks name j s.2 (omega arith)
    ∙ put_pair-before b base k (c % 256) 0 j (omega arith)

put_pair_at :
    (b : Buf) (base k lo hi : ℕ)
    → base + 32 ≤ length b
    → k < 31
    → get_or (put_pair b base k lo hi) (base + k) 0 ≡ lo
put_pair_at b base k lo hi fits lt =
    get_or-set_ne (set b (base + k) lo) (base + k + 1) (base + k) hi 0 (λ e. omega arith)
    ∙ get_or-set_self b (base + k) lo 0 (omega arith)

length-put_pair : (b : Buf) (base k lo hi : ℕ) → length (put_pair b base k lo hi) ≡ length b
length-put_pair b base k lo hi = length-set (set b (base + k) lo) _ _ ∙ length-set b _ _

parse_frag-put_frag :
    (b : Buf) (base from : ℕ) (ks name : List ℕ)
    → base + 32 ≤ length b
    → IsSpaced from ks
    → IsLong name
    → length name ≤ length ks
    → parse_frag (put_frag b base ks name) base ks ≡ (name, true)
unfolding put_frag parse_frag
parse_frag-put_frag b base from [] [] fits s l le = refl
parse_frag-put_frag b base from [] (c ∷ name) fits s l le = absurd (omega arith)
parse_frag-put_frag b base from (k ∷ ks) [] fits s l le =
    let here : get_or (put_filler (put_pair b base k 0 0) base ks) (base + k) 0 ≡ 0 =
      put_filler-before (put_pair b base k 0 0) base (k + 2) ks (base + k) s.2 (omega arith)
      ∙ put_pair_at b base k 0 0 fits s.1 in
    rw here refl
parse_frag-put_frag b base from (k ∷ ks) (c ∷ name) fits s l le =
    let p = put_pair b base k (c % 256) 0 in
    let here : get_or (put_frag p base ks name) (base + k) 0 % 256 ≡ c =
      ap (λ (x : ℕ). x % 256)
        (put_frag-before p base (k + 2) ks name (base + k) s.2 (omega arith)
          ∙ put_pair_at b base k (c % 256) 0 fits s.1)
      ∙ omega arith in
    let ih =
      parse_frag-put_frag p base (k + 2) ks name
        (omega (arith, length-put_pair b base k (c % 256) 0)) s.2 l.2 (omega arith) in
    rw (here, ih, ==-false_of_ne c 0xff (λ e. omega arith), ==-false_of_ne c 0 (λ e. omega arith))
      refl

-- A fragment of a long name, at most 13 characters between 1 and 0xfe, is read back as it was
-- written, from any entry inside a buffer.
pub parse_frag-put_lfn_name_frag :
    (b : Buf) (base : ℕ) (name : List ℕ)
    → base + 32 ≤ length b
    → IsLong name
    → length name ≤ 13
    → parse_frag (put_lfn_name_frag b base name) base lfn_indices ≡ (name, true)
unfolding put_lfn_name_frag
parse_frag-put_lfn_name_frag b base name fits l le =
    parse_frag-put_frag b base 1 lfn_indices name fits (omega arith) l le
