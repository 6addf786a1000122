-- ===== src/Kernel/Steps.antt =====
-- The steps of kmain in src/kernel/kernel.c: each comes back, and shows something.
use beaner_os.Io.{Ports}
use beaner_os.Serial.{serial_init}
use mathlib.Core.Path.{subst}
use beaner_os.Kernel.Log.{InUse, Logged, Said, on_tty-Said}
use beaner_os.Serial.Line.{Uart, IsLine, at_divisor, serial_write-Sent, serial_init-IsSet}
use beaner_os.Idt.{Idt, idt_init, register_interrupt_handler}
use beaner_os.Timer.{timer_init}
use beaner_os.Keyboard.{init_irq}
use beaner_os.Pmm
use beaner_os.Kheap
use beaner_os.Fat.State.{Fat, DiskOps, Res, ok, err}
use beaner_os.Fat.Mount.{Globals, fat_mount}
use beaner_os.Commands.{vol_name}
use beaner_os.Commands.Run.{is_stuck}
use beaner_os.Kernel.{
  Kernel, on_idt, print_ok, mounted, start_terminal, start_serial, start_interrupts, start_timer,
  start_keyboard, start_memory, start_ata, start_fs, finish, kmain,
}
use beaner_os.Base.{
  sym, ◌/◌, ◌%◌, ◌^◌, ◌==◌, set, ℕ, ◌<◌, ◌≡◌, refl, ap, ◌∙◌, Bool, true, not, some, List, ◌++◌,
  reverse, arith, codes, Bool-cases, inl, inr, false,
}

abbrev pub greeting : List ℕ
greeting = codes "Beaner kernel starting...\n"

-- A result of fat_mount behind which kmain goes on: success, or an error code.
abbrev pub goes_on : Res (Unit {0}) → Bool
goes_on (ok _) = true
goes_on (err e) = not (is_stuck e)

module _ {P D : Type 0} (ports : Ports P) (fuel : ℕ) (ops : DiskOps D) (stubs : List ℕ)
    (tick key g_fs : ℕ) where
  pub kmain_steps :
      (k k1 k2 k3 k4 k5 k6 k7 k8 k9 : Kernel P D)
      → start_terminal ports fuel k ≡ some k1
      → start_serial ports fuel k1 ≡ some k2
      → start_interrupts ports fuel stubs k2 ≡ some k3
      → start_timer ports fuel tick k3 ≡ some k4
      → start_keyboard ports fuel key k4 ≡ some k5
      → start_memory ports fuel k5 ≡ some k6
      → start_ata ports fuel k6 ≡ some k7
      → start_fs ports fuel ops g_fs k7 ≡ some k8
      → finish ports fuel k8 ≡ some k9
      → kmain ports fuel ops stubs tick key g_fs k ≡ some k9
  unfolding kmain
  kmain_steps k k1 k2 k3 k4 k5 k6 k7 k8 k9 a b c d e f g h i = rw (a, b, c, d, e, f, g, h) i

module _ {P D : Type 0} {ports : Ports P} {see : P → Uart} {bound : ℕ}
    (line : IsLine ports see bound) (fuel : ℕ) (fuel_is : bound < fuel) where
  pub terminal_step :
      (k : Kernel P D)
      → ((p : P) → see (ports.inb 0x3d5 p).1 ≡ see p)
      → InUse bound (see k.ports)
      → (k' : Kernel P D) × (start_terminal ports fuel k ≡ some k') × Said see bound k k'
  unfolding start_terminal
  terminal_step k quiet use_ =
      let q = (ports.inb 0x3d5 (ports.inb 0x3d5 k.ports).1).1 in
      let same : see q ≡ see k.ports = quiet _ ∙ quiet k.ports in
      let (k', run, s) =
        on_tty-Said line fuel fuel_is _ (record k { ports = q })
          (subst (InUse bound) (sym same) use_) in
      (
        k',
        run,
        record {
          log = s.log;
          logged = subst (λ u. Logged s.log k.tty k'.tty u (see k'.ports)) same s.logged;
          in_use = s.in_use;
          timer = s.timer;
          keyboard = s.keyboard;
          pmm = s.pmm;
          heap = s.heap;
          globals = s.globals;
          fat = s.fat;
        },
      )

  pub serial_step :
      (k : Kernel P D)
      → InUse bound (see k.ports)
      → (p : P) × (k' : Kernel P D) × (start_serial ports fuel k ≡ some k')
        × ((see p).sent ≡ reverse greeting ++ (see k.ports).sent)
        × Said see bound (record k { ports = p }) k'
  unfolding start_serial
  serial_step k use_ =
      let set_ = serial_init-IsSet line k.ports use_.plain in
      let (p, run, s) =
        serial_write-Sent line fuel greeting (serial_init ports k.ports) fuel_is
          (omega (arith, use_.lag, ap (λ (u : Uart). u.lag) set_)) (ap at_divisor set_) in
      let plain : at_divisor (see p) ≡ false =
        ap (λ c. not (c / 2 ^ 7 % 2 == 0)) s.control ∙ ap at_divisor set_ in
      let (k', run', said) =
        on_tty-Said line fuel fuel_is (print_ok (codes "Serial driver initialized"))
          (record k { ports = p }) (record { lag = s.lag; plain = plain }) in
      (p, k', rw run run', s.sent ∙ ap (λ (u : Uart). reverse greeting ++ u.sent) set_, said)

  pub timer_step :
      (tick : ℕ) (k : Kernel P D)
      → InUse bound (see k.ports)
      → (i : Idt) × (k' : Kernel P D) × (start_timer ports fuel tick k ≡ some k')
        × (i.handlers ≡ set k.timer.idt.handlers 32 tick)
        × (i.loaded ≡ k.timer.idt.loaded)
        × Said see bound
            (record k { timer = record { tick_count = k.timer.tick_count; idt = i } })
            k'
  unfolding start_timer timer_init register_interrupt_handler
  timer_step tick k use_ =
      let (k', run, said) = on_tty-Said line fuel fuel_is _ _ use_ in (_, k', run, refl, refl, said)

  pub mounted_step :
      (r : Res (Unit {0})) (k : Kernel P D)
      → goes_on r ≡ true
      → InUse bound (see k.ports)
      → (k' : Kernel P D) × (mounted ports fuel r k ≡ some k') × Said see bound k k'
  mounted_step (ok _) k e use_ = on_tty-Said line fuel fuel_is _ k use_
  mounted_step (err e) k goes use_ = elim (Bool-cases (is_stuck e)) [
    | inl stuck ↦ absurd (ground (arith, goes, stuck))
    | inr not_stuck ↦ rw not_stuck (on_tty-Said line fuel fuel_is _ k use_)
  ]

  pub fs_step :
      (ops : DiskOps D) (g_fs : ℕ) (k : Kernel P D) (r : Res (Unit {0})) (g : Globals) (f : Fat D)
      → fat_mount ops 0 g_fs vol_name k.globals k.fat ≡ (r, g, f)
      → goes_on r ≡ true
      → InUse bound (see k.ports)
      → (k' : Kernel P D) × (start_fs ports fuel ops g_fs k ≡ some k')
        × Said see bound (record k { globals = g; fat = f }) k'
  unfolding start_fs
  fs_step ops g_fs k r g f run goes use_ =
      let (k', e, said) = mounted_step r (record k { globals = g; fat = f }) goes use_ in
      (
        k',
        ap
              (λ (m : Res (Unit {0}) × Globals × Fat D).
                mounted ports fuel m.0 (record k { globals = m.1; fat = m.2 }))
              run
            ∙ e,
        said,
      )

  -- The steps that only change a part and then show something.
  pub interrupts_step :
      (stubs : List ℕ) (k : Kernel P D)
      → InUse bound (see k.ports)
      → (k' : Kernel P D) × (start_interrupts ports fuel stubs k ≡ some k')
        × Said see bound (on_idt (idt_init stubs) k) k'
  unfolding start_interrupts
  interrupts_step stubs k use_ = on_tty-Said line fuel fuel_is _ _ use_

  pub keyboard_step :
      (key : ℕ) (k : Kernel P D)
      → InUse bound (see k.ports)
      → (k' : Kernel P D) × (start_keyboard ports fuel key k ≡ some k')
        × Said see bound
            (on_idt
              (register_interrupt_handler 33 key)
              (record k { keyboard = init_irq k.keyboard }))
            k'
  unfolding start_keyboard
  keyboard_step key k use_ = on_tty-Said line fuel fuel_is _ _ use_

  pub memory_step :
      (k : Kernel P D)
      → InUse bound (see k.ports)
      → (k' : Kernel P D) × (start_memory ports fuel k ≡ some k')
        × Said see bound (record k { pmm = Pmm.init 0x0040_0000 0x0200_0000; heap = Kheap.init }) k'
  unfolding start_memory
  memory_step k use_ = on_tty-Said line fuel fuel_is _ _ use_

  pub ata_step :
      (k : Kernel P D)
      → InUse bound (see k.ports)
      → (k' : Kernel P D) × (start_ata ports fuel k ≡ some k') × Said see bound k k'
  unfolding start_ata
  ata_step k use_ = on_tty-Said line fuel fuel_is _ _ use_

  pub finish_step :
      (k : Kernel P D)
      → InUse bound (see k.ports)
      → (k' : Kernel P D) × (finish ports fuel k ≡ some k') × Said see bound k k'
  unfolding finish
  finish_step k use_ = on_tty-Said line fuel fuel_is _ _ use_
