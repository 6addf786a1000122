-- ===== src/Ata/Command.antt =====
-- How src/driver/ata.c addresses a sector and gives a command.
use beaner_os.Io.{Ports}
use beaner_os.Ata.{ata_base, command, words_of}
use beaner_os.Ata.Drive.{IsDrive, Drive, Comes, idle, giving, taking, address}
use beaner_os.Base.{ℕ, suc, ◌+◌, ◌/◌, ◌%◌, ◌^◌, ◌<◌, ◌≡◌, refl, ap, ◌∙◌, arith, []}

module _ {D : Type 0} (ports : Ports D) where
  -- The machine before the command itself.
  unfoldable pub set_up : (lba count : ℕ) → D → D
  set_up lba count d =
      let d1 = ports.outb (ata_base + 6) (0xe0 + lba / 2 ^ 24 % 16) d in
      let d2 = ports.outb (ata_base + 2) count d1 in
      let d3 = ports.outb (ata_base + 3) (lba % 256) d2 in
      let d4 = ports.outb (ata_base + 4) (lba / 2 ^ 8 % 256) d3 in
      ports.outb (ata_base + 5) (lba / 2 ^ 16 % 256) d4

  command-set_up :
      (lba count code : ℕ) (d : D)
      → command ports lba count code d ≡ ports.outb (ata_base + 7) code (set_up lba count d)
  unfolding command set_up
  command-set_up lba count code d = refl

-- The drive with the registers set.
abbrev addressed : (lba count : ℕ) → Drive → Drive
addressed lba count v = record v {
  drive = 0xe0 + lba / 2 ^ 24 % 16;
  count = count;
  low = lba % 256;
  mid = lba / 2 ^ 8 % 256;
  high = lba / 2 ^ 16 % 256;
}

address-addressed :
    (lba count : ℕ) (v : Drive) → lba < 2 ^ 28 → address (addressed lba count v) ≡ lba
address-addressed lba count v lt = omega arith

module _ {D : Type 0} {ports : Ports D} {see : D → Drive} {bound : ℕ}
    (drive : IsDrive ports see bound) where
  see-set_up :
      (lba count : ℕ) (d : D)
      → count < 2 ^ 8
      → (see d).phase ≡ idle
      → (see d).lag ≡ 0
      → see (set_up ports lba count d) ≡ addressed lba count (see d)
  unfolding set_up
  see-set_up lba count d byte at lag =
      let d1 = ports.outb (ata_base + 6) (0xe0 + lba / 2 ^ 24 % 16) d in
      let e1 = drive.set_drive d (0xe0 + lba / 2 ^ 24 % 16) (omega arith) at lag in
      let d2 = ports.outb (ata_base + 2) count d1 in
      let e2 =
        drive.set_count d1 count byte (ap (λ (v : Drive). v.phase) e1 ∙ at)
          (ap (λ (v : Drive). v.lag) e1 ∙ lag)
        ∙ ap (λ (v : Drive). record v { count = count }) e1 in
      let d3 = ports.outb (ata_base + 3) (lba % 256) d2 in
      let e3 =
        drive.set_low d2 (lba % 256) (omega arith) (ap (λ (v : Drive). v.phase) e2 ∙ at)
          (ap (λ (v : Drive). v.lag) e2 ∙ lag)
        ∙ ap (λ (v : Drive). record v { low = lba % 256 }) e2 in
      let d4 = ports.outb (ata_base + 4) (lba / 2 ^ 8 % 256) d3 in
      let e4 =
        drive.set_mid d3 (lba / 2 ^ 8 % 256) (omega arith) (ap (λ (v : Drive). v.phase) e3 ∙ at)
          (ap (λ (v : Drive). v.lag) e3 ∙ lag)
        ∙ ap (λ (v : Drive). record v { mid = lba / 2 ^ 8 % 256 }) e3 in
      drive.set_high d4 (lba / 2 ^ 16 % 256) (omega arith) (ap (λ (v : Drive). v.phase) e4 ∙ at)
        (ap (λ (v : Drive). v.lag) e4 ∙ lag)
      ∙ ap (λ (v : Drive). record v { high = lba / 2 ^ 16 % 256 }) e4

  -- After the command to read, the drive gives the first sector.
  pub command-giving :
      (lba n : ℕ) (d : D)
      → lba < 2 ^ 28
      → suc n < 2 ^ 8
      → (see d).phase ≡ idle
      → (see d).lag ≡ 0
      → Comes bound
          (giving lba n (words_of ((see d).disk lba)))
          (see d).disk
          (see (command ports lba (suc n) 0x20 d))
  command-giving lba n d lt byte at lag =
      let e = see-set_up lba (suc n) d byte at lag in
      let d' = set_up ports lba (suc n) d in
      let c =
        drive.start_read d' n (ap (λ (v : Drive). v.phase) e ∙ at)
          (ap (λ (v : Drive). v.lag) e ∙ lag) (ap (λ (v : Drive). v.count) e) in
      let same = command-set_up ports lba (suc n) 0x20 d in
      record {
        phase =
            ap (λ x. (see x).phase) same
            ∙ c.phase
            ∙ ap (λ (v : Drive). giving (address v) n (words_of (v.disk (address v)))) e
            ∙ ap (λ a. giving a n (words_of ((see d).disk a)))
                (address-addressed lba (suc n) (see d) lt);
        lag = omega (arith, c.lag, ap (λ x. (see x).lag) same);
        disk_is = λ t. ap (λ x. (see x).disk t) same ∙ c.disk_is t ∙ ap (λ (v : Drive). v.disk t) e;
      }

  -- After the command to write, it takes the first sector.
  pub command-taking :
      (lba n : ℕ) (d : D)
      → lba < 2 ^ 28
      → suc n < 2 ^ 8
      → (see d).phase ≡ idle
      → (see d).lag ≡ 0
      → Comes bound (taking lba n []) (see d).disk (see (command ports lba (suc n) 0x30 d))
  command-taking lba n d lt byte at lag =
      let e = see-set_up lba (suc n) d byte at lag in
      let d' = set_up ports lba (suc n) d in
      let c =
        drive.start_write d' n (ap (λ (v : Drive). v.phase) e ∙ at)
          (ap (λ (v : Drive). v.lag) e ∙ lag) (ap (λ (v : Drive). v.count) e) in
      let same = command-set_up ports lba (suc n) 0x30 d in
      record {
        phase =
            ap (λ x. (see x).phase) same
            ∙ c.phase
            ∙ ap (λ (v : Drive). taking (address v) n []) e
            ∙ ap (λ a. taking a n []) (address-addressed lba (suc n) (see d) lt);
        lag = omega (arith, c.lag, ap (λ x. (see x).lag) same);
        disk_is = λ t. ap (λ x. (see x).disk t) same ∙ c.disk_is t ∙ ap (λ (v : Drive). v.disk t) e;
      }
