-- ===== src/Vmm/Examples.antt =====
-- The theorems on src/mm/vmm.c at concrete inputs.
use beaner_os.Base.{
  ◌≡◌, refl, if◌then◌else◌, ◌==◌, some, none, [], arith, false, ltb, ◌+◌, ◌*◌, ◌/◌, ◌^◌, inl, true,
}
use beaner_os.Vmm.{
  Vmm, page_directory_index, page_table_index, page_align, is_present, directory_slot, table_slot,
  vmm_init,
}
use beaner_os.Vmm.Init.{IsPlaced, lookup-vmm_init}
use beaner_os.Vmm.Translate.{lookup}

-- A directory at 0x1000 whose entry 0 names a table at 0x2000, whose entry 1 names page 0x5000.
abbrev paged : Vmm
paged = record {
  word = λ a. if a == 0x1000 then 0x2003 else if a == 0x2004 then 0x5003 else 0;
  frames = record { bitmap = []; total_frames = 0; free_frames = 0; first_frame = 0 };
  cr3 = 0;
  paging = false;
}

lookup_test : (lookup 0x1000 0x1abc paged ≡ some 0x5003) × (lookup 0x1000 0x3000 paged ≡ none)
unfolding lookup is_present directory_slot page_directory_index table_slot page_align
    page_table_index
lookup_test = (refl, refl)

-- The directory at 1 MiB, its tables at 4 MiB.
placed : IsPlaced 0x0010_0000 0x0040_0000
placed = record { aligned = refl; fits = omega arith; apart = inl (omega arith) }

lookup-vmm_init_example :
    (lookup 0x0010_0000 0x0012_3456 (vmm_init 0x0010_0000 0x0040_0000 paged)
      ≡ (if ltb 0x0012_3456 (2 ^ 28) then some (0x0012_3456 / 4096 * 4096 + 3) else none))
    × ((vmm_init 0x0010_0000 0x0040_0000 paged).cr3 ≡ 0x0010_0000)
    × ((vmm_init 0x0010_0000 0x0040_0000 paged).paging ≡ true)
lookup-vmm_init_example =
    lookup-vmm_init 0x0010_0000 0x0040_0000 0x0012_3456 paged placed (omega arith)
