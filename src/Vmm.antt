-- ===== src/Vmm.antt =====
-- Paging, src/mm/vmm.c: page directories and page tables in memory, seen as 32-bit words at
-- addresses that are multiples of 4. The instruction that flushes the TLB is left out.
pub mod Translate
pub mod Fill
pub mod Init
mod Examples
use beaner_os.Base.{
  ℕ, zero, suc, ◌+◌, ◌*◌, ◌/◌, ◌%◌, ◌^◌, Bool, if◌then◌else◌, ◌==◌, bit_or, not, true,
}
use beaner_os.Pmm.{Pmm, alloc_frame}

-- Words by address, the frames that are left, the register cr3, and whether paging is on.
pub record Vmm : Type 0 where
  pub word : ℕ → ℕ
  pub frames : Pmm
  pub cr3 : ℕ
  pub paging : Bool

-- `PAGE_DIRECTORY_INDEX`, `PAGE_TABLE_INDEX` and `PAGE_ALIGN` of a uint32_t.
unfoldable pub page_directory_index : ℕ → ℕ
page_directory_index x = x / 2 ^ 22 % 1024

unfoldable pub page_table_index : ℕ → ℕ
page_table_index x = x / 2 ^ 12 % 1024

unfoldable pub page_align : ℕ → ℕ
page_align x = x % 2 ^ 32 / 4096 * 4096

-- `entry & PAGE_PRESENT`
unfoldable pub is_present : ℕ → Bool
is_present entry = not (entry % 2 == 0)

abbrev pub put_word : (addr v : ℕ) → (ℕ → ℕ) → ℕ → ℕ
put_word addr v word a = if a == addr then v else word a

-- `memset(page_table, 0, PAGE_SIZE)` of the 1024 words.
unfoldable pub clear_words : (addr n : ℕ) → (ℕ → ℕ) → ℕ → ℕ
clear_words addr zero word = word
clear_words addr (suc n) word = clear_words addr n (put_word (addr + 4 * n) 0 word)

-- Where the entry of `virt` in the directory at `dir` lies.
unfoldable pub directory_slot : (dir virt : ℕ) → ℕ
directory_slot dir virt = dir + 4 * page_directory_index virt

-- Where the entry of `virt` lies in the table that a directory entry names.
unfoldable pub table_slot : (entry virt : ℕ) → ℕ
table_slot entry virt = page_align entry + 4 * page_table_index virt

-- A new table for `virt`. PAGE_PRESENT | PAGE_RW is 3; pmm_alloc_frame may give 0, NULL, which is
-- not tested.
unfoldable pub add_table : (dir virt flags : ℕ) → Vmm → Vmm
add_table dir virt flags v =
    let (table, p) = alloc_frame v.frames in
    record v {
      word =
          put_word (directory_slot dir virt) (bit_or (bit_or table 3) flags)
            (clear_words table 1024 v.word);
      frames = p;
    }

-- Where the page table is, after a new one is added where there is none. A new table is at the
-- address of its frame; else the directory entry has it.
unfoldable pub table_of : (dir virt : ℕ) → Vmm → ℕ
table_of dir virt v =
    let entry = v.word (directory_slot dir virt) in
    if is_present entry then page_align entry else (alloc_frame v.frames).0

unfoldable pub map : (dir virt phys flags : ℕ) → Vmm → Vmm
map dir virt phys flags v =
    let entry = v.word (directory_slot dir virt) in
    let w = if is_present entry then v else add_table dir virt flags v in
    record w {
      word =
          put_word (table_of dir virt v + 4 * page_table_index virt)
            (bit_or (page_align phys) flags) w.word;
    }

unfoldable pub unmap : (dir virt : ℕ) → Vmm → Vmm
unmap dir virt v =
    let entry = v.word (directory_slot dir virt) in
    if is_present entry then record v { word = put_word (table_slot entry virt) 0 v.word } else v

unfoldable pub vmm_switch_directory : (dir : ℕ) → Vmm → Vmm
vmm_switch_directory dir v = record v { cr3 = dir }

-- A loop over `i` that writes the word `val i` to `slot i`, with `n` rounds left.
unfoldable pub fill : (slot val : ℕ → ℕ) (i n : ℕ) → (ℕ → ℕ) → ℕ → ℕ
fill slot val i zero word = word
fill slot val i (suc n) word = fill slot val (i + 1) n (put_word (slot i) (val i) word)

-- Where page `j` has its entry in the tables at `tables`.
unfoldable pub page_slot : (tables j : ℕ) → ℕ
page_slot tables j =
    tables + 4096 * page_directory_index (j * 4096) + 4 * page_table_index (j * 4096)

-- `directory` and `tables` are the addresses of kernel_page_directory and kernel_page_tables.
-- enable_paging loads cr3 and sets bit 31 of cr0. The flags of an entry are PAGE_PRESENT | PAGE_RW.
module _ (directory tables : ℕ) where
  unfoldable pub set_entries : (ℕ → ℕ) → ℕ → ℕ
  set_entries = fill (λ i. directory + 4 * i) (λ i. bit_or (tables + 4096 * i) 3) 0 256

  unfoldable pub set_pages : (ℕ → ℕ) → ℕ → ℕ
  set_pages = fill (page_slot tables) (λ j. bit_or (j * 4096) 3) 0 65536

  unfoldable pub vmm_init : Vmm → Vmm
  vmm_init v =
      let cleared = clear_words tables 262144 (clear_words directory 1024 v.word) in
      record v { word = set_pages (set_entries cleared); cr3 = directory; paging = true }

  unfoldable pub vmm_get_kernel_directory : ℕ
  vmm_get_kernel_directory = directory
