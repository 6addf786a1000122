-- ===== src/Idt.antt =====
-- Interrupts of src/kernel/idt.c: the descriptor table, the handlers, and the interrupt controllers.
pub mod Gates
mod Examples
use beaner_os.Base.{
  ℕ, List, leb, ◌==◌, if◌then◌else◌, get_or, set, replicate, ◌+◌, ◌/◌, ◌%◌, ◌^◌, not, Option, none,
  some, [], ◌∷◌, ◌-◌, ◌*◌,
}

-- `idt_entry_t`
pub record Gate : Type 0 where
  pub base_low : ℕ
  pub selector : ℕ
  pub zero_byte : ℕ
  pub flags : ℕ
  pub base_high : ℕ

-- `IDT_ENTRIES`
abbrev pub idt_entries : ℕ
idt_entries = 256

-- `idt_entries`, `interrupt_handlers` and the ports that are written, the last write first. A handler is the
-- address of a function, 0 for none. `table` is the address of `idt_entries`, `loaded` what idt_flush has been
-- given in `idt_ptr`: the limit and the base.
pub record Idt : Type 0 where
  pub gates : List Gate
  pub handlers : List ℕ
  pub outs : List (ℕ × ℕ)
  pub table : ℕ
  pub loaded : Option (ℕ × ℕ)

-- `outb(port, value)`
abbrev pub outb : (port value : ℕ) → Idt → Idt
outb port value s = record s { outs = (port, value) ∷ s.outs }

unfoldable pub out_all : List (ℕ × ℕ) → Idt → Idt
out_all [] s = s
out_all ((port, value) ∷ rest) s = out_all rest (outb port value s)

-- The vectors of the two controllers begin at 0x20 and 0x28, and all lines are let through.
unfoldable pub pic_remap : Idt → Idt
pic_remap = out_all (
    (0x20, 0x11)
    ∷ (0xa0, 0x11)
    ∷ (0x21, 0x20)
    ∷ (0xa1, 0x28)
    ∷ (0x21, 0x04)
    ∷ (0xa1, 0x02)
    ∷ (0x21, 0x01)
    ∷ (0xa1, 0x01)
    ∷ (0x21, 0x00)
    ∷ (0xa1, 0x00)
    ∷ [])

abbrev pub no_gate : Gate
no_gate = record { base_low = 0; selector = 0; zero_byte = 0; flags = 0; base_high = 0 }

abbrev pub gate : (base sel flags : ℕ) → Gate
gate base sel flags = record {
  base_low = base % 2 ^ 16;
  selector = sel;
  zero_byte = 0;
  flags = flags;
  base_high = base / 2 ^ 16 % 2 ^ 16;
}

unfoldable pub idt_set_gate : (num base sel flags : ℕ) → Idt → Idt
idt_set_gate num base sel flags s = record s { gates = set s.gates num (gate base sel flags) }

-- The calls of idt_set_gate in idt_init. `stubs` are the addresses of the stubs isr0 to isr31 and
-- irq0 to irq15, in that order.
unfoldable pub set_gates : (num : ℕ) (stubs : List ℕ) → Idt → Idt
set_gates num [] s = s
set_gates num (stub ∷ rest) s = set_gates (num + 1) rest (idt_set_gate num stub 0x08 0x8e s)

-- The two `memset`s.
unfoldable pub clear_tables : Idt → Idt
clear_tables s = record s {
  gates = replicate idt_entries no_gate;
  handlers = replicate idt_entries 0;
}

unfoldable pub idt_init : (stubs : List ℕ) → Idt → Idt
idt_init stubs s =
    let t = set_gates 0 stubs (pic_remap (clear_tables s)) in
    record t { loaded = some (8 * idt_entries - 1, s.table) }

unfoldable pub register_interrupt_handler : (n handler : ℕ) → Idt → Idt
register_interrupt_handler n handler s = record s { handlers = set s.handlers n handler }

-- The handler that is called, if any. `int_no` is below 256: the stubs push it.
unfoldable pub isr_handler : (int_no : ℕ) → Idt → Option ℕ × Idt
isr_handler int_no s =
    let handler = get_or s.handlers int_no 0 in
    (if not (handler == 0) then some handler else none, s)

-- The controllers are told that the interrupt is taken before the handler is called.
unfoldable pub irq_handler : (int_no : ℕ) → Idt → Option ℕ × Idt
irq_handler int_no s =
    isr_handler int_no (outb 0x20 0x20 (if leb 40 int_no then outb 0xa0 0x20 s else s))
