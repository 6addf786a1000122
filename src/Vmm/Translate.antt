-- ===== src/Vmm/Translate.antt =====
-- vmm_map and vmm_unmap of src/mm/vmm.c against the translation that the processor makes.
use beaner_os.Base.{
  ℕ, ◌≡◌, ◌≢◌, refl, Bool, true, if◌then◌else◌, Option, some, none, ==-false_of_ne, ==-refl, ap,
  ◌∙◌,
}
use beaner_os.Vmm.{Vmm, is_present, put_word, directory_slot, table_slot, unmap}

guard : {A : Type 0} {b : Bool} → b ≡ true → (x y : A) → (if b then x else y) ≡ x
guard e x y = rw e refl

-- What the processor finds for `virt` in the directory at `dir`: the entry of the page table.
unfoldable pub lookup : (dir virt : ℕ) → Vmm → Option ℕ
lookup dir virt v =
    let entry = v.word (directory_slot dir virt) in
    let page = v.word (table_slot entry virt) in
    if is_present entry then (if is_present page then some page else none) else none

-- `virt` has a page table, and the table's words are none of the directory's.
pub record HasTable (dir virt : ℕ) (v : Vmm) : Type 0 where
  pub present : is_present (v.word (directory_slot dir virt)) ≡ true
  pub apart : (w : ℕ) → directory_slot dir w ≢ table_slot (v.word (directory_slot dir virt)) virt

-- A word of the table that is written.
abbrev pub slot_of : (dir virt : ℕ) → Vmm → ℕ
slot_of dir virt v = table_slot (v.word (directory_slot dir virt)) virt

-- `v` with word `x` in the slot of `virt`.
abbrev with_page : (dir virt x : ℕ) → Vmm → Vmm
with_page dir virt x v = record v { word = put_word (slot_of dir virt v) x v.word }

entry-with_page :
    (dir virt x w : ℕ) (v : Vmm)
    → HasTable dir virt v
    → (with_page dir virt x v).word (directory_slot dir w) ≡ v.word (directory_slot dir w)
entry-with_page dir virt x w v t =
    let no = ==-false_of_ne (directory_slot dir w) (slot_of dir virt v) (t.apart w) in rw no refl

lookup-with_page :
    (dir virt x : ℕ) (v : Vmm)
    → HasTable dir virt v
    → lookup dir virt (with_page dir virt x v) ≡ (if is_present x then some x else none)
unfolding lookup
lookup-with_page dir virt x v t =
    rw (entry-with_page dir virt x virt v t, t.present, ==-refl (slot_of dir virt v)) refl

lookup-with_page_ne :
    (dir virt x w : ℕ) (v : Vmm)
    → HasTable dir virt v
    → slot_of dir w v ≢ slot_of dir virt v
    → lookup dir w (with_page dir virt x v) ≡ lookup dir w v
unfolding lookup
lookup-with_page_ne dir virt x w v t ne =
    rw (entry-with_page dir virt x w v t, ==-false_of_ne _ _ ne) refl

unmap-run :
    (dir virt : ℕ) (v : Vmm) → HasTable dir virt v → unmap dir virt v ≡ with_page dir virt 0 v
unfolding unmap
unmap-run dir virt v t = guard t.present _ _

-- Of an address whose page table lies apart from the directory, `vmm_unmap` takes the translation
-- away, and that of no address with another entry of a page table.
pub lookup-unmap :
    (dir virt w : ℕ) (v : Vmm)
    → HasTable dir virt v
    → slot_of dir w v ≢ slot_of dir virt v
    → (lookup dir virt (unmap dir virt v) ≡ none)
      × (lookup dir w (unmap dir virt v) ≡ lookup dir w v)
unfolding is_present
lookup-unmap dir virt w v t ne =
    let run = unmap-run dir virt v t in
    (
      ap (lookup dir virt) run ∙ lookup-with_page dir virt 0 v t,
      ap (lookup dir w) run ∙ lookup-with_page_ne dir virt 0 w v t ne,
    )
