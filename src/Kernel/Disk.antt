-- ===== src/Kernel/Disk.antt =====
-- The callbacks of DiskOps in src/kernel/kernel.c, over the drive of src/driver/ata.c.
use mathlib.Core.Path.{subst}
use beaner_os.Io.{Ports}
use beaner_os.Ata.{ata_read_sectors, ata_write_sectors}
use beaner_os.Ata.Drive.{IsDrive, Drive, Comes, idle}
use beaner_os.Ata.Read.{IsSector, ata_read_sectors-sectors}
use beaner_os.Ata.Write.{overlay, ata_write_sectors-sectors}
use beaner_os.Base.{
  eq-cases, ℕ, ◌^◌, ◌<◌, ◌≡◌, sym, ap, ◌∙◌, ◌≢◌, inl, inr, Bool, true, Option, none, some, List,
  arith, append_nil,
}

-- `ata_read_sectors` and `ata_write_sectors` return 0, so that the callbacks give `true`; `none` where they do not return.
module _ {D : Type 0} (ports : Ports D) (fuel : ℕ) where
  unfoldable pub fat_read_sector : (sect : ℕ) → D → Option (Bool × List ℕ × D)
  fat_read_sector sect d = elim (ata_read_sectors ports fuel sect 1 d) [
    | none ↦ none
    | some r ↦ some (true, r.0, r.1)
  ]

  unfoldable pub fat_write_sector : (buf : List ℕ) (sect : ℕ) → D → Option (Bool × D)
  fat_write_sector buf sect d = elim (ata_write_sectors ports fuel sect 1 buf d) [
    | none ↦ none
    | some e ↦ some (true, e)
  ]

module _ {D : Type 0} {ports : Ports D} {see : D → Drive} {bound : ℕ}
    (drive : IsDrive ports see bound) (fuel : ℕ) where
  read_step :
      (sect : ℕ) (d g : D) (bytes : List ℕ)
      → ata_read_sectors ports fuel sect 1 d ≡ some (bytes, g)
      → fat_read_sector ports fuel sect d ≡ some (true, bytes, g)
  unfolding fat_read_sector
  read_step sect d g bytes run = cc

  write_step :
      (sect : ℕ) (buf : List ℕ) (d g : D)
      → ata_write_sectors ports fuel sect 1 buf d ≡ some g
      → fat_write_sector ports fuel buf sect d ≡ some (true, g)
  unfolding fat_write_sector
  write_step sect buf d g run = cc

  overlay_self : (disk : ℕ → List ℕ) (b : List ℕ) (s : ℕ) → overlay disk (λ _. b) s 1 s ≡ b
  overlay_self disk b s = ground arith

  overlay_ne :
      (disk : ℕ → List ℕ) (b : List ℕ) (s t : ℕ) → t ≢ s → overlay disk (λ _. b) s 1 t ≡ disk t
  overlay_ne disk b s t ne = ground arith

  overlay-IsSector :
      (disk : ℕ → List ℕ) (b : List ℕ) (s t : ℕ)
      → IsSector b
      → ((u : ℕ) → IsSector (disk u))
      → IsSector (overlay disk (λ _. b) s 1 t)
  overlay-IsSector disk b s t one all = elim (eq-cases t s) [
    | inl e ↦
        subst IsSector (sym (overlay_self disk b s) ∙ ap (overlay disk (λ _. b) s 1) (sym e)) one
    | inr ne ↦ subst IsSector (sym (overlay_ne disk b s t ne)) (all t)
  ]

  -- On an idle drive that keeps to the protocol, is busy for fewer looks than the fuel, and holds
  -- `disk`, in sectors of 512 bytes, a sector of 512 bytes that is written below 2 ^ 28 is what a
  -- read of that sector then gives, and a read of another sector below 2 ^ 28 gives what it held
  -- before; all three calls return and succeed.
  pub fat_read_sector-fat_write_sector :
      (disk : ℕ → List ℕ) (buf : List ℕ) (sect other : ℕ) (d : D)
      → ((t : ℕ) → IsSector (disk t))
      → IsSector buf
      → bound < fuel
      → sect < 2 ^ 28
      → other < 2 ^ 28
      → other ≢ sect
      → Comes bound idle disk (see d)
      → (g h k : D) × (fat_write_sector ports fuel buf sect d ≡ some (true, g))
        × (fat_read_sector ports fuel sect g ≡ some (true, buf, h))
        × (fat_read_sector ports fuel other h ≡ some (true, disk other, k))
        × Comes bound idle (overlay disk (λ _. buf) sect 1) (see k)
  fat_read_sector-fat_write_sector disk buf sect other d all one fuel_is lt lt' ne c =
      let after = overlay disk (λ _. buf) sect 1 in
      let sectors : (t : ℕ) → IsSector (after t) = λ t. overlay-IsSector disk buf sect t one all in
      let (g, run, c1) =
        ata_write_sectors-sectors drive (λ _. buf) (λ _. one) fuel sect 0 disk d fuel_is
          (omega (arith, lt)) (omega arith) c in
      let (h, run', c2) =
        ata_read_sectors-sectors drive after sectors fuel sect 0 g fuel_is (omega (arith, lt))
          (omega arith) c1 in
      let (k, run'', c3) =
        ata_read_sectors-sectors drive after sectors fuel other 0 h fuel_is (omega (arith, lt'))
          (omega arith) c2 in
      (
        g,
        h,
        k,
        write_step sect buf d g
            (ap (λ b. ata_write_sectors ports fuel sect 1 b d) (sym (append_nil buf)) ∙ run),
        read_step sect g h buf
            (run' ∙ ap (λ b. some (b, h)) (append_nil (after sect) ∙ overlay_self disk buf sect)),
        read_step other h k (disk other) (
            run''
            ∙ ap (λ b. some (b, k)) (append_nil (after other) ∙ overlay_ne disk buf sect other ne)),
        c3,
      )
