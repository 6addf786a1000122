-- ===== src/Timer.antt =====
-- The timer of src/driver/timer.c. Its callback is called with the interrupts of Idt.antt.
use beaner_os.Idt.{Idt, outb, register_interrupt_handler}
use beaner_os.Base.{ℕ, ltb, ◌==◌, if◌then◌else◌, ◌+◌, ◌/◌, ◌%◌, ◌^◌, Bool, Option, none, some}

-- `tick_count`, and the handlers and ports of Idt.antt.
pub record Timer : Type 0 where
  pub tick_count : ℕ
  pub idt : Idt

unfoldable pub timer_callback : Timer → Timer
timer_callback t = record t { tick_count = (t.tick_count + 1) % 2 ^ 32 }

-- `callback` is the address of timer_callback. A frequency of 0, by which the program divides, is
-- `none`.
unfoldable pub timer_init : (callback frequency : ℕ) → Timer → Option Timer
timer_init callback frequency t =
    let divisor = 1193180 / frequency in
    let i = outb 0x43 0x36 (register_interrupt_handler 32 callback t.idt) in
    if frequency == 0
    then none
    else some (record t { idt = outb 0x40 (divisor / 2 ^ 8 % 256) (outb 0x40 (divisor % 256) i) })

-- `timer_wait` goes on while this holds; `start` is what `tick_count` was.
unfoldable pub still_waits : (start ticks : ℕ) → Timer → Bool
still_waits start ticks t = ltb t.tick_count ((start + ticks) % 2 ^ 32)
