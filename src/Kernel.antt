-- ===== src/Kernel.antt =====
-- kmain of src/kernel/kernel.c up to the loop of the shell: the order in which the parts are set up.
pub mod Disk
pub mod Log
pub mod Steps
pub mod Boot
mod Examples
use beaner_os.Tty
use beaner_os.Io.{Ports}
use beaner_os.Serial.{serial_init, serial_write}
use beaner_os.Idt.{Idt, idt_init, register_interrupt_handler}
use beaner_os.Timer.{Timer, timer_init}
use beaner_os.Keyboard.{Keyboard, init_irq}
use beaner_os.Pmm.{Pmm}
use beaner_os.Pmm
use beaner_os.Kheap
use beaner_os.Libc.Printf.{word, string, printf}
use beaner_os.Fat.State.{Fat, DiskOps, Res, ok, err}
use beaner_os.Fat.Mount.{Globals, fat_mount}
use beaner_os.Commands.{shown_on, vol_name}
use beaner_os.Commands.Run.{is_stuck}
use beaner_os.Base.{
  ℕ, List, [], ◌∷◌, codes, get_or, zero, suc, ◌+◌, ◌%◌, ◌^◌, Option, none, some, if◌then◌else◌,
  ◌++◌, reverse,
}

-- The colours of `enum vga_color` that kmain uses.
abbrev black : ℕ
black = 0

abbrev light_green : ℕ
light_green = 10

abbrev light_cyan : ℕ
light_cyan = 11

-- `printf` of a format without arguments.
abbrev pub print : (format : List ℕ) → Tty.Tty → Tty.Tty
print format = shown_on (printf format [])

unfoldable pub print_ok : (msg : List ℕ) → Tty.Tty → Tty.Tty
print_ok msg t =
    shown_on (printf (codes " %s\n") (string (some msg) ∷ []))
      (Tty.writestring_color (codes "[OK]") light_green black t)

abbrev banner : List (List ℕ × ℕ)
banner =
    (codes "  ____                              ", 12)
    ∷ (codes " | __ )  ___  __ _ _ __   ___ _ __ ", 13)
    ∷ (codes " |  _ \\ / _ \\/ _` | '_ \\ / _ \\ '__|", 9)
    ∷ (codes " | |_) |  __/ (_| | | | |  __/ |   ", 11)
    ∷ (codes " |____/ \\___|\\__,_|_| |_|\\___|_|   ", 10)
    ∷ []

unfoldable pub draw_lines : List (List ℕ × ℕ) → Tty.Tty → Tty.Tty
draw_lines [] t = t
draw_lines ((line, color) ∷ rest) t =
    draw_lines rest (Tty.write (codes "\n") (Tty.writestring_color line color black t))

unfoldable pub draw_banner : Tty.Tty → Tty.Tty
draw_banner t = Tty.write (codes "\n") (draw_lines banner (Tty.write (codes "\n") t))

abbrev spinner : List ℕ
spinner = codes "|/-\\"

-- The rounds from `i` on, `n` of them; the delay in each changes nothing here.
unfoldable pub spin : (i n col row : ℕ) → Tty.Tty → Tty.Tty
spin i zero col row t = t
spin i (suc n) col row t =
    let u = Tty.putchar (get_or spinner (i % 4) 0) (Tty.putchar b' ' t) in
    spin (i + 1) n col row (Tty.set_position ((col + 7) % 2 ^ 32) row u)

unfoldable pub boot_animation : Tty.Tty → Tty.Tty
boot_animation t =
    let col = Tty.get_column t in
    let row = Tty.get_row t in
    let u = Tty.writestring_color (codes "Booting") light_cyan black t in
    let v = Tty.set_position ((col + 7) % 2 ^ 32) row (spin 0 20 col row u) in
    Tty.write (codes "  Done!\n\n") v

-- The state of every part that kmain sets up: `ports` of the machine `P`, `fat` with its device.
pub record Kernel (P D : Type 0) : Type 0 where
  pub tty : Tty.Tty
  pub ports : P
  pub timer : Timer
  pub keyboard : Keyboard
  pub pmm : Pmm
  pub heap : Kheap.Heap
  pub globals : Globals
  pub fat : Fat D

abbrev pub on_idt : {P D : Type 0} → (Idt → Idt) → Kernel P D → Kernel P D
on_idt set_up k = let t = k.timer in record k { timer = record t { idt = set_up t.idt } }

-- A step of kmain that may not come back, and the next one.
abbrev pub and_then : {A B : Type 0} → Option A → (A → Option B) → Option B
and_then none next = none
and_then (some x) next = next x

-- `fuel` bounds the looks at the serial line before each character.
module _ {P D : Type 0} (ports : Ports P) (fuel : ℕ) where
  -- What is drawn on the terminal; serial_putchar sends each of its characters to the line.
  unfoldable pub on_tty : (draw : Tty.Tty → Tty.Tty) → Kernel P D → Option (Kernel P D)
  on_tty draw k =
      let t = draw (record k.tty { serial = [] }) in
      elim (serial_write ports fuel (reverse t.serial) k.ports) [
        | none ↦ none
        | some p ↦
            some (record k { tty = record t { serial = t.serial ++ k.tty.serial }; ports = p })
      ]

  -- The port of the cursor is read twice.
  unfoldable pub start_terminal : Kernel P D → Option (Kernel P D)
  start_terminal k =
      let (first, p) = ports.inb 0x3d5 k.ports in
      let (last, q) = ports.inb 0x3d5 p in
      on_tty
        (λ t.
          let u = draw_banner (boot_animation (Tty.enable_cursor first last (Tty.initialize t))) in
          print_ok (codes "Terminal initialized") (print (codes "Welcome to Beaner!\n\n") u))
        (record k { ports = q })

  unfoldable pub start_serial : Kernel P D → Option (Kernel P D)
  start_serial k =
      and_then
        (serial_write ports fuel (codes "Beaner kernel starting...\n") (serial_init ports k.ports))
        (λ p. on_tty (print_ok (codes "Serial driver initialized")) (record k { ports = p }))

  -- The instruction `sti` is left out.
  unfoldable pub start_interrupts : (stubs : List ℕ) → Kernel P D → Option (Kernel P D)
  start_interrupts stubs k =
      on_tty (λ t. print_ok (codes "Interrupts enabled") (print_ok (codes "IDT initialized") t))
        (on_idt (idt_init stubs) k)

  unfoldable pub start_timer : (tick : ℕ) → Kernel P D → Option (Kernel P D)
  start_timer tick k =
      and_then (timer_init tick 100 k.timer)
        (λ t. on_tty (print_ok (codes "Timer initialized (100Hz)")) (record k { timer = t }))

  unfoldable pub start_keyboard : (key : ℕ) → Kernel P D → Option (Kernel P D)
  start_keyboard key k =
      on_tty (print_ok (codes "Keyboard IRQ handler registered"))
        (on_idt (register_interrupt_handler 33 key) (record k { keyboard = init_irq k.keyboard }))

  unfoldable pub start_memory : Kernel P D → Option (Kernel P D)
  start_memory k =
      let p = Pmm.init 0x0040_0000 0x0200_0000 in
      let frames =
        printf (codes "[OK] PMM initialized (%d frames available)\n") (word p.free_frames ∷ []) in
      on_tty (λ t. print_ok (codes "Kernel heap initialized") (shown_on frames t))
        (record k { pmm = p; heap = Kheap.init })

  -- ata_init sets a variable to the value that it has.
  unfoldable pub start_ata : Kernel P D → Option (Kernel P D)
  start_ata k =
      let bus = printf (codes "[ATA] Primary bus initialized at 0x%x\n") (word 0x1f0 ∷ []) in
      on_tty (λ t. print_ok (codes "ATA driver initialized") (shown_on bus t)) k

  abbrev pub mounted : Res (Unit {0}) → Kernel P D → Option (Kernel P D)
  mounted (ok _) k = on_tty (print_ok (codes "FAT32 filesystem mounted at /")) k
  mounted (err e) k =
      if is_stuck e
      then none
      else on_tty (print (codes "[WARN] Failed to mount FAT32 filesystem\n")) k

  unfoldable pub start_fs : DiskOps D → (g_fs : ℕ) → Kernel P D → Option (Kernel P D)
  start_fs ops g_fs k =
      let (r, g, f) = fat_mount ops 0 g_fs vol_name k.globals k.fat in
      mounted r (record k { globals = g; fat = f })

  unfoldable pub finish : Kernel P D → Option (Kernel P D)
  finish k =
      on_tty
        (λ t.
          print (codes "\n") (print_ok (codes "All systems operational") (print (codes "\n") t)))
        k

  -- `stubs` are the addresses of the interrupt stubs, `tick` and `key` those of timer_callback and
  -- keyboard_irq_handler, and `g_fs` that of the volume. `none` where the serial line is never ready, or
  -- where fat_mount divides by 0.
  unfoldable pub kmain :
      (ops : DiskOps D) (stubs : List ℕ) (tick key g_fs : ℕ) → Kernel P D → Option (Kernel P D)
  kmain ops stubs tick key g_fs k = and_then (start_terminal k) (λ k1.
      and_then (start_serial k1) (λ k2. and_then (start_interrupts stubs k2) (λ k3.
        and_then (start_timer tick k3) (λ k4. and_then (start_keyboard key k4) (λ k5.
          and_then (start_memory k5)
            (λ k6. and_then (start_ata k6) (λ k7. and_then (start_fs ops g_fs k7) finish)))))))
