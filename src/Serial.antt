-- ===== src/Serial.antt =====
-- The serial line of src/driver/serial.c, over ports that are a parameter.
pub mod Line
pub mod Examples
use beaner_os.Io.{Ports}
use beaner_os.Base.{
  ℕ, List, [], ◌∷◌, zero, suc, ◌+◌, ◌/◌, ◌%◌, ◌^◌, ◌==◌, if◌then◌else◌, Bool, not, Option, none,
  some,
}

-- `SERIAL_COM1`
abbrev pub serial_com1 : ℕ
serial_com1 = 0x3f8

-- `status & 0x20`
abbrev pub is_empty : (status : ℕ) → Bool
is_empty status = not (status / 2 ^ 5 % 2 == 0)

module _ {D : Type 0} (ports : Ports D) where
  unfoldable pub serial_init : D → D
  serial_init d =
      let d1 = ports.outb (serial_com1 + 1) 0x00 d in
      let d2 = ports.outb (serial_com1 + 3) 0x80 d1 in
      let d3 = ports.outb (serial_com1 + 0) 0x03 d2 in
      let d4 = ports.outb (serial_com1 + 1) 0x00 d3 in
      let d5 = ports.outb (serial_com1 + 3) 0x03 d4 in
      let d6 = ports.outb (serial_com1 + 2) 0xc7 d5 in ports.outb (serial_com1 + 4) 0x0b d6

  -- `while (is_transmit_empty() == 0);`, `none` where the line is not ready in `fuel` looks.
  unfoldable pub wait_empty : (fuel : ℕ) → D → Option D
  wait_empty zero d = none
  wait_empty (suc k) d =
      let (status, e) = ports.inb (serial_com1 + 5) d in
      let rest = wait_empty k e in if is_empty status then some e else rest

  -- Each wait looks `fuel` times at most.
  module _ (fuel : ℕ) where
    unfoldable pub serial_putchar : (c : ℕ) → D → Option D
    serial_putchar c d = elim (wait_empty fuel d) [
      | none ↦ none
      | some e ↦ some (ports.outb serial_com1 c e)
    ]

    unfoldable pub serial_write : (chars : List ℕ) → D → Option D
    serial_write [] d = some d
    serial_write (c ∷ chars) d = elim (serial_putchar c d) [
      | none ↦ none
      | some e ↦ serial_write chars e
    ]

    -- `data_` has `size` characters; `none` also where it has fewer.
    unfoldable pub serial_write_buf : (data_ : List ℕ) (size : ℕ) → D → Option D
    serial_write_buf data_ zero d = some d
    serial_write_buf [] (suc n) d = none
    serial_write_buf (c ∷ data_) (suc n) d = elim (serial_putchar c d) [
      | none ↦ none
      | some e ↦ serial_write_buf data_ n e
    ]
