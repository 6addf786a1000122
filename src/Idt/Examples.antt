-- ===== src/Idt/Examples.antt =====
-- The theorems on src/kernel/idt.c at concrete inputs.
use beaner_os.Idt.{Idt, idt_init, no_gate, irq_handler, register_interrupt_handler}
use beaner_os.Idt.Gates.{IsGateOf, idt_init-IsGateOf, acknowledged, irq_handler-register}
use beaner_os.Base.{
  ℕ, ◌≡◌, refl, arith, List, replicate, get_or, some, if◌then◌else◌, ◌==◌, [], none,
}

abbrev empty : Idt
empty = record { gates = []; handlers = replicate 256 0; outs = []; table = 0x9000; loaded = none }

abbrev stubs : List ℕ
stubs = replicate 48 0x0010_2030

idt_init-IsGateOf_example : IsGateOf stubs 33 (get_or (idt_init stubs empty).gates 33 no_gate)
idt_init-IsGateOf_example = idt_init-IsGateOf stubs empty 33 refl (omega arith)

irq_handler-register_example :
    ((irq_handler 33 (register_interrupt_handler 33 77 empty)).0
      ≡ (if 33 == 33 then some 77 else (irq_handler 33 empty).0))
    × ((irq_handler 33 (register_interrupt_handler 33 77 empty)).1.outs
        ≡ acknowledged 33 empty.outs)
irq_handler-register_example = irq_handler-register 33 77 33 empty (omega arith) (omega arith)
