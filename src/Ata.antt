-- ===== src/Ata.antt =====
-- Sectors over the ports of a drive, in src/driver/ata.c. The ports are a parameter.
pub mod Bytes
pub mod Drive
pub mod Command
pub mod Read
pub mod Write
pub mod Examples
use beaner_os.Io.{Ports}
use beaner_os.Base.{
  ℕ, List, [], ◌∷◌, ◌==◌, if◌then◌else◌, take, drop, zero, suc, ◌+◌, ◌*◌, ◌/◌, ◌%◌, ◌^◌, Bool, not,
  Option, none, some, ◌++◌,
}

-- `ATA_PRIMARY_IO`, which `ata_base` is.
abbrev pub ata_base : ℕ
ata_base = 0x1f0

-- Bits ATA_SR_BSY and ATA_SR_DRQ of a status.
abbrev pub is_busy : (status : ℕ) → Bool
is_busy status = not (status / 2 ^ 7 % 2 == 0)

abbrev pub wants_data : (status : ℕ) → Bool
wants_data status = not (status / 2 ^ 3 % 2 == 0)

-- The words that are sent for the bytes of a buffer, and the bytes that are stored for words.
unfoldable pub words_of : (bytes : List ℕ) → List ℕ
words_of [] = []
words_of (lo ∷ []) = (lo % 256) ∷ []
words_of (lo ∷ hi ∷ bytes) = (lo % 256 + hi % 256 * 2 ^ 8) ∷ words_of bytes

unfoldable pub bytes_of : (words : List ℕ) → List ℕ
bytes_of [] = []
bytes_of (data_ ∷ words) = (data_ % 256) ∷ (data_ / 2 ^ 8 % 256) ∷ bytes_of words

module _ {D : Type 0} (ports : Ports D) where
  -- The loops of ata_wait_bsy and ata_wait_drq; `none` where the drive is not ready in `fuel` looks at
  -- its status.
  unfoldable pub wait_until : (ready : ℕ → Bool) (fuel : ℕ) → D → Option D
  wait_until ready zero d = none
  wait_until ready (suc k) d =
      let (status, e) = ports.inb (ata_base + 7) d in
      let rest = wait_until ready k e in if ready status then some e else rest

  unfoldable pub ata_wait_bsy : (fuel : ℕ) → D → Option D
  ata_wait_bsy = wait_until (λ status. not (is_busy status))

  unfoldable pub ata_wait_drq : (fuel : ℕ) → D → Option D
  ata_wait_drq = wait_until wants_data

  -- The address of the first sector, and the command.
  unfoldable pub command : (lba sector_count code : ℕ) → D → D
  command lba sector_count code d =
      let d1 = ports.outb (ata_base + 6) (0xe0 + lba / 2 ^ 24 % 16) d in
      let d2 = ports.outb (ata_base + 2) sector_count d1 in
      let d3 = ports.outb (ata_base + 3) (lba % 256) d2 in
      let d4 = ports.outb (ata_base + 4) (lba / 2 ^ 8 % 256) d3 in
      let d5 = ports.outb (ata_base + 5) (lba / 2 ^ 16 % 256) d4 in
      ports.outb (ata_base + 7) code d5

  unfoldable pub in_words : (n : ℕ) → D → List ℕ × D
  in_words zero d = ([], d)
  in_words (suc n) d =
      let (word, e) = ports.inw ata_base d in let (words, g) = in_words n e in (word ∷ words, g)

  unfoldable pub out_words : (words : List ℕ) → D → D
  out_words [] d = d
  out_words (word ∷ words) d = out_words words (ports.outw ata_base word d)

  -- Each wait looks at the status `fuel` times at most.
  module _ (fuel : ℕ) where
    unfoldable pub ready : D → Option D
    ready d = elim (ata_wait_bsy fuel d) [ none ↦ none | some e ↦ ata_wait_drq fuel e ]

    -- The sectors that are read, `n` of them left.
    unfoldable pub read_loop : (n : ℕ) → D → Option (List ℕ × D)
    read_loop zero d = some ([], d)
    read_loop (suc n) d = elim (ready d) [
      | none ↦ none
      | some e ↦
          let (words, g) = in_words 256 e in
          elim (read_loop n g) [ none ↦ none | some r ↦ some (bytes_of words ++ r.0, r.1) ]
    ]

    unfoldable pub write_loop : (n : ℕ) (buffer : List ℕ) → D → Option D
    write_loop zero buffer d = some d
    write_loop (suc n) buffer d = elim (ready d) [
      | none ↦ none
      | some e ↦ write_loop n (drop 512 buffer) (out_words (words_of (take 512 buffer)) e)
    ]

    -- `sector_count` is a uint8_t. What is read; the value of the function is 0, whatever the drive says.
    unfoldable pub ata_read_sectors : (lba sector_count : ℕ) → D → Option (List ℕ × D)
    ata_read_sectors lba sector_count d = elim (ata_wait_bsy fuel d) [
      | none ↦ none
      | some e ↦ read_loop (sector_count % 2 ^ 8) (command lba (sector_count % 2 ^ 8) 0x20 e)
    ]

    unfoldable pub ata_write_sectors : (lba sector_count : ℕ) (buffer : List ℕ) → D → Option D
    ata_write_sectors lba sector_count buffer d = elim (ata_wait_bsy fuel d) [
      | none ↦ none
      | some e ↦
          write_loop (sector_count % 2 ^ 8) buffer (command lba (sector_count % 2 ^ 8) 0x30 e)
    ]
