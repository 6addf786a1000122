-- ===== src/Io.antt =====
-- The ports of the processor, of src/include/io.h, which are a parameter, and delay of
-- src/driver/io.c.
use beaner_os.Base.{ℕ, zero, suc}

-- `inb`, `inw`, `outb` and `outw`, on a machine with the state `D`.
pub record Ports (D : Type 0) : Type 0 where
  pub inb : (port : ℕ) → D → ℕ × D
  pub inw : (port : ℕ) → D → ℕ × D
  pub outb : (port value : ℕ) → D → D
  pub outw : (port value : ℕ) → D → D

-- `nop` is what the processor does in one round.
unfoldable pub delay : {D : Type 0} → (nop : D → D) → (count : ℕ) → D → D
delay nop zero d = d
delay nop (suc count) d = delay nop count (nop d)
