-- ===== src/Vmm/Init.antt =====
-- The translation that vmm_init of src/mm/vmm.c sets up.
use beaner_os.Vmm.Fill.{bit_or-three, fill-out, fill-at, clear-out, clear-at}
use beaner_os.Vmm.{
  Vmm, clear_words, page_slot, set_entries, set_pages, vmm_init, is_present, page_align,
  page_directory_index, page_table_index, directory_slot, table_slot,
}
use beaner_os.Vmm.Translate.{lookup}
use beaner_os.Base.{
  ℕ, ◌+◌, ◌*◌, ◌/◌, ◌%◌, ◌≤◌, ◌<◌, bit_or, ◌≡◌, refl, sym, ap, ◌∙◌, inl, inr, arith, ◌^◌, ◌⊎◌, ltb,
  if◌then◌else◌, true, false, none, some, lt-cases, lt→ltb, Option,
}

-- Page-aligned, apart, below 2 ^ 32.
pub record IsPlaced (directory tables : ℕ) : Type 0 where
  pub aligned : tables % 4096 ≡ 0
  pub fits : tables + 1048576 ≤ 2 ^ 32
  pub apart : (directory + 4096 ≤ tables) ⊎ (tables + 1048576 ≤ directory)

module _ (directory tables : ℕ) (at : IsPlaced directory tables) where
  slot_is : (j : ℕ) → j < 65536 → page_slot tables j ≡ tables + 4 * j
  unfolding page_slot page_directory_index page_table_index
  slot_is j lt = omega arith

  -- What the memory holds after vmm_init, place by place.
  abbrev filled : (ℕ → ℕ) → ℕ → ℕ
  filled word =
      set_pages directory tables
        (set_entries directory tables (clear_words tables 262144 (clear_words directory 1024 word)))

  entry_not_page :
      (word : ℕ → ℕ) (d : ℕ)
      → d < 1024
      → filled word (directory + 4 * d)
        ≡ set_entries directory tables
            (clear_words tables 262144 (clear_words directory 1024 word))
            (directory + 4 * d)
  unfolding set_pages
  entry_not_page word d lt =
      fill-out (page_slot tables) _ 0 65536 _ (directory + 4 * d)
        (λ k lo hi same. omega (arith, slot_is k hi, same, at.apart))

  entry_used :
      (word : ℕ → ℕ) (d : ℕ) → d < 256 → filled word (directory + 4 * d) ≡ tables + 4096 * d + 3
  unfolding set_entries
  entry_used word d lt =
      entry_not_page word d (omega arith)
      ∙ fill-at (λ i. directory + 4 * i) (λ i. bit_or (tables + 4096 * i) 3) 0 256 _ d
          (λ a b la lb same. omega arith) (omega arith) (omega arith)
      ∙ bit_or-three (tables + 4096 * d) (omega (arith, at.aligned))

  entry_free : (word : ℕ → ℕ) (d : ℕ) → 256 ≤ d → d < 1024 → filled word (directory + 4 * d) ≡ 0
  unfolding set_entries
  entry_free word d lo lt =
      entry_not_page word d lt
      ∙ fill-out (λ i. directory + 4 * i) _ 0 256 _ (directory + 4 * d)
          (λ k lo' hi same. omega arith)
      ∙ clear-out tables 262144 _ (directory + 4 * d) (λ k lt' same. omega (arith, at.apart))
      ∙ clear-at directory 1024 word d lt

  page_used : (word : ℕ → ℕ) (j : ℕ) → j < 65536 → filled word (tables + 4 * j) ≡ j * 4096 + 3
  unfolding set_pages
  page_used word j lt =
      ap (filled word) (sym (slot_is j lt))
      ∙ fill-at (page_slot tables) (λ i. bit_or (i * 4096) 3) 0 65536 _ j
          (λ a b la lb same. omega (arith, slot_is a la, slot_is b lb, same)) (omega arith)
          (omega arith)
      ∙ bit_or-three (j * 4096) (omega arith)

  page_free : (word : ℕ → ℕ) (j : ℕ) → 65536 ≤ j → j < 262144 → filled word (tables + 4 * j) ≡ 0
  unfolding set_pages set_entries
  page_free word j lo lt =
      fill-out (page_slot tables) _ 0 65536 _ (tables + 4 * j)
        (λ k lo' hi same. omega (arith, slot_is k hi, same))
      ∙ fill-out (λ i. directory + 4 * i) _ 0 256 _ (tables + 4 * j)
          (λ k lo' hi same. omega (arith, at.apart))
      ∙ clear-at tables 262144 _ j lt

lookup_steps :
    (dir virt entry page : ℕ) (v : Vmm)
    → v.word (directory_slot dir virt) ≡ entry
    → v.word (table_slot entry virt) ≡ page
    → lookup dir virt v
      ≡ (if is_present entry then (if is_present page then some page else none) else none)
unfolding lookup
lookup_steps dir virt entry page v e e' = rw (e, e') refl

present : (x : ℕ) → x % 4 ≡ 0 → is_present (x + 3) ≡ true
unfolding is_present
present x e = ground arith

absent : is_present 0 ≡ false
unfolding is_present
absent = refl

not_below : (virt : ℕ) → 2 ^ 28 ≤ virt → ltb virt (2 ^ 28) ≡ false
not_below virt high = ground arith

-- What the lookup of the two entries comes to.
no_entry :
    (virt : ℕ) (inner : Option ℕ) (page : ℕ)
    → 2 ^ 28 ≤ virt
    → (if is_present 0 then inner else none) ≡ (if ltb virt (2 ^ 28) then some page else none)
no_entry virt inner page high = rw (absent, not_below virt high) refl

no_page :
    (d virt tables page : ℕ)
    → (tables + 4096 * d) % 4 ≡ 0
    → 2 ^ 28 ≤ virt
    → (if is_present (tables + 4096 * d + 3) then (if is_present 0 then some 0 else none) else none)
      ≡ (if ltb virt (2 ^ 28) then some page else none)
no_page d virt tables page e high =
    rw (present (tables + 4096 * d) e, absent, not_below virt high) refl

with_page :
    (d j virt tables : ℕ)
    → (tables + 4096 * d) % 4 ≡ 0
    → virt < 2 ^ 28
    → j ≡ virt / 4096
    → (if is_present (tables + 4096 * d + 3)
        then (if is_present (j * 4096 + 3) then some (j * 4096 + 3) else none)
        else none)
      ≡ (if ltb virt (2 ^ 28) then some (virt / 4096 * 4096 + 3) else none)
with_page d j virt tables e low is =
    rw (present (tables + 4096 * d) e, present (j * 4096) (omega arith), lt→ltb virt (2 ^ 28) low)
      (ap (λ i. some (i * 4096 + 3)) is)

-- With the kernel page tables page-aligned, below 2 ^ 32 and apart from the directory, `vmm_init`
-- turns paging on with a directory that translates each address below 256 MiB to itself, present
-- and writable, and no other 32-bit address.
pub lookup-vmm_init :
    (directory tables virt : ℕ) (v : Vmm)
    → IsPlaced directory tables
    → virt < 2 ^ 32
    → (lookup directory virt (vmm_init directory tables v)
        ≡ (if ltb virt (2 ^ 28) then some (virt / 4096 * 4096 + 3) else none))
      × ((vmm_init directory tables v).cr3 ≡ directory)
      × ((vmm_init directory tables v).paging ≡ true)
unfolding vmm_init directory_slot table_slot page_directory_index page_table_index page_align
lookup-vmm_init directory tables virt v at lt =
    let w = vmm_init directory tables v in
    let d = virt / 2 ^ 22 % 1024 in
    let j = virt / 4096 in
    (
      elim (lt-cases d 256) [
        | inr far ↦
            lookup_steps directory virt 0 _ w
              (entry_free directory tables at v.word d far (omega arith)) refl
            ∙ no_entry virt _ _ (omega arith)
        | inl near ↦
            let entry = entry_used directory tables at v.word d near in
            let slot : (tables + 4096 * d + 3) % 2 ^ 32 / 4096 * 4096 + 4 * (virt / 2 ^ 12 % 1024)
                ≡ tables + 4 * j =
              omega (arith, at.aligned, at.fits) in
            elim (lt-cases j 65536) [
              | inl low ↦
                  lookup_steps directory virt (tables + 4096 * d + 3) (j * 4096 + 3) w entry
                    (ap w.word slot ∙ page_used directory tables at v.word j low)
                  ∙ with_page d j virt tables (omega (arith, at.aligned)) (omega arith)
                      (omega arith)
              | inr high ↦
                  lookup_steps directory virt (tables + 4096 * d + 3) 0 w entry
                    (ap w.word slot ∙ page_free directory tables at v.word j high (omega arith))
                  ∙ no_page d virt tables _ (omega (arith, at.aligned)) (omega arith)
            ]
      ],
      refl,
      refl,
    )
