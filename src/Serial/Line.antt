-- ===== src/Serial/Line.antt =====
-- What src/driver/serial.c does to a line that is wired as a 16550 is.
use mathlib.Core.List.{reverse-cons}
use beaner_os.Io.{Ports}
use beaner_os.Serial.{serial_com1, is_empty, serial_init, wait_empty, serial_putchar, serial_write}
use beaner_os.Base.{
  ◌==◌, ℕ, zero, suc, ◌+◌, ◌/◌, ◌%◌, ◌^◌, ◌≤◌, ◌<◌, ◌≡◌, refl, sym, ap, ◌∙◌, Bool, true, false, not,
  some, List, [], ◌∷◌, ◌++◌, reverse, arith, snoc-append,
}

-- The registers, what is sent, the latest first, and how many looks will find the line not ready.
pub record Uart : Type 0 where
  pub divisor_low : ℕ
  pub divisor_high : ℕ
  pub interrupts : ℕ
  pub fifo : ℕ
  pub control : ℕ
  pub modem : ℕ
  pub sent : List ℕ
  pub lag : ℕ

-- Bit 7 of the line control: the first two ports are those of the divisor.
abbrev pub at_divisor : Uart → Bool
at_divisor u = not (u.control / 2 ^ 7 % 2 == 0)

-- `see` tells what the line is like on a machine in a given state.
pub record IsLine {D : Type 0} (ports : Ports D) (see : D → Uart) (bound : ℕ) : Type 0 where
  pub look_full :
      (d : D) (n : ℕ)
      → (see d).lag ≡ suc n
      → (is_empty (ports.inb (serial_com1 + 5) d).0 ≡ false)
        × (see (ports.inb (serial_com1 + 5) d).1 ≡ record (see d) { lag = n })
  pub look_empty :
      (d : D)
      → (see d).lag ≡ 0
      → (is_empty (ports.inb (serial_com1 + 5) d).0 ≡ true)
        × (see (ports.inb (serial_com1 + 5) d).1 ≡ see d)
  pub out_low :
      (d : D) (b : ℕ)
      → at_divisor (see d) ≡ true
      → see (ports.outb serial_com1 b d) ≡ record (see d) { divisor_low = b }
  pub out_high :
      (d : D) (b : ℕ)
      → at_divisor (see d) ≡ true
      → see (ports.outb (serial_com1 + 1) b d) ≡ record (see d) { divisor_high = b }
  -- A character is sent once the line is ready for it.
  pub out_char :
      (d : D) (c : ℕ)
      → at_divisor (see d) ≡ false
      → (see d).lag ≡ 0
      → (n : ℕ) × (n ≤ bound)
        × (see (ports.outb serial_com1 c d) ≡ record (see d) { sent = c ∷ (see d).sent; lag = n })
  pub out_interrupts :
      (d : D) (b : ℕ)
      → at_divisor (see d) ≡ false
      → see (ports.outb (serial_com1 + 1) b d) ≡ record (see d) { interrupts = b }
  pub out_fifo :
      (d : D) (b : ℕ) → see (ports.outb (serial_com1 + 2) b d) ≡ record (see d) { fifo = b }
  pub out_control :
      (d : D) (b : ℕ) → see (ports.outb (serial_com1 + 3) b d) ≡ record (see d) { control = b }
  pub out_modem :
      (d : D) (b : ℕ) → see (ports.outb (serial_com1 + 4) b d) ≡ record (see d) { modem = b }

module _ {D : Type 0} {ports : Ports D} {see : D → Uart} {bound : ℕ}
    (line : IsLine ports see bound) where
  wait_empty-ready :
      (fuel n : ℕ) (d : D)
      → (see d).lag ≡ n
      → n < fuel
      → (e : D) × (wait_empty ports fuel d ≡ some e) × (see e ≡ record (see d) { lag = 0 })
  unfolding wait_empty
  wait_empty-ready zero n d lag lt = absurd (omega arith)
  wait_empty-ready (suc k) zero d lag lt =
      let (free, same) = line.look_empty d lag in
      (
        (ports.inb (serial_com1 + 5) d).1,
        rw free refl,
        same ∙ ap (λ (l : ℕ). record (see d) { lag = l }) lag,
      )
  wait_empty-ready (suc k) (suc n) d lag lt =
      let (full, one_less) = line.look_full d n lag in
      let d' = (ports.inb (serial_com1 + 5) d).1 in
      let (e, run, is) =
        wait_empty-ready k n d' (ap (λ (u : Uart). u.lag) one_less) (omega arith) in
      (e, rw full run, is ∙ ap (λ (u : Uart). record u { lag = 0 }) one_less)

  -- `e` is `d` with `cs` sent, in that order.
  pub record Sent (cs : List ℕ) (d e : D) : Type 0 where
    pub sent : (see e).sent ≡ reverse cs ++ (see d).sent
    pub lag : (see e).lag ≤ bound
    pub control : (see e).control ≡ (see d).control

  putchar_step :
      (fuel c : ℕ) (d e : D)
      → wait_empty ports fuel d ≡ some e
      → serial_putchar ports fuel c d ≡ some (ports.outb serial_com1 c e)
  unfolding serial_putchar
  putchar_step fuel c d e run = cc

  serial_putchar-Sent :
      (fuel c : ℕ) (d : D)
      → bound < fuel
      → (see d).lag ≤ bound
      → at_divisor (see d) ≡ false
      → (e : D) × (serial_putchar ports fuel c d ≡ some e) × Sent (c ∷ []) d e
  serial_putchar-Sent fuel c d fuel_is lag plain =
      let (e, run, is) = wait_empty-ready fuel (see d).lag d refl (omega arith) in
      let (n, le, out) =
        line.out_char e c (ap at_divisor is ∙ plain) (ap (λ (u : Uart). u.lag) is) in
      (
        ports.outb serial_com1 c e,
        putchar_step fuel c d e run,
        record {
          sent = ap (λ (u : Uart). u.sent) out ∙ ap (λ (u : Uart). c ∷ u.sent) is;
          lag = omega (arith, le, ap (λ (u : Uart). u.lag) out);
          control = ap (λ (u : Uart). u.control) out ∙ ap (λ (u : Uart). u.control) is;
        },
      )

  write_step :
      (fuel c : ℕ) (cs : List ℕ) (d e g : D)
      → serial_putchar ports fuel c d ≡ some e
      → serial_write ports fuel cs e ≡ some g
      → serial_write ports fuel (c ∷ cs) d ≡ some g
  unfolding serial_write
  write_step fuel c cs d e g run rest = cc

  pub serial_write-Sent :
      (fuel : ℕ) (cs : List ℕ) (d : D)
      → bound < fuel
      → (see d).lag ≤ bound
      → at_divisor (see d) ≡ false
      → (e : D) × (serial_write ports fuel cs d ≡ some e) × Sent cs d e
  unfolding serial_write
  serial_write-Sent fuel [] d fuel_is lag plain =
      (d, refl, record { sent = refl; lag = lag; control = refl })
  serial_write-Sent fuel (c ∷ cs) d fuel_is lag plain =
      let (e, run, s) = serial_putchar-Sent fuel c d fuel_is lag plain in
      let (g, rest, s') =
        serial_write-Sent fuel cs e fuel_is s.lag
          (ap (λ n. not (n / 2 ^ 7 % 2 == 0)) s.control ∙ plain) in
      (
        g,
        write_step fuel c cs d e g run rest,
        record {
          sent =
              s'.sent
              ∙ ap (λ xs. reverse cs ++ xs) s.sent
              ∙ sym (snoc-append (reverse cs) c (see d).sent)
              ∙ ap (λ xs. xs ++ (see d).sent) (sym (reverse-cons c cs));
          lag = s'.lag;
          control = s'.control ∙ s.control;
        },
      )

  pub serial_init-IsSet :
      (d : D)
      → at_divisor (see d) ≡ false
      → see (serial_init ports d) ≡ record (see d) {
        divisor_low = 3;
        divisor_high = 0;
        interrupts = 0;
        fifo = 0xc7;
        control = 3;
        modem = 0x0b;
      }
  unfolding serial_init
  serial_init-IsSet d plain =
      let d1 = ports.outb (serial_com1 + 1) 0x00 d in
      let e1 = line.out_interrupts d 0x00 plain in
      let d2 = ports.outb (serial_com1 + 3) 0x80 d1 in
      let e2 = line.out_control d1 0x80 ∙ ap (λ (u : Uart). record u { control = 0x80 }) e1 in
      let d3 = ports.outb serial_com1 0x03 d2 in
      let e3 =
        line.out_low d2 0x03 (ap at_divisor e2)
        ∙ ap (λ (u : Uart). record u { divisor_low = 3 }) e2 in
      let d4 = ports.outb (serial_com1 + 1) 0x00 d3 in
      let e4 =
        line.out_high d3 0x00 (ap at_divisor e3)
        ∙ ap (λ (u : Uart). record u { divisor_high = 0 }) e3 in
      let d5 = ports.outb (serial_com1 + 3) 0x03 d4 in
      let e5 = line.out_control d4 0x03 ∙ ap (λ (u : Uart). record u { control = 3 }) e4 in
      let d6 = ports.outb (serial_com1 + 2) 0xc7 d5 in
      let e6 = line.out_fifo d5 0xc7 ∙ ap (λ (u : Uart). record u { fifo = 0xc7 }) e5 in
      line.out_modem d6 0x0b ∙ ap (λ (u : Uart). record u { modem = 0x0b }) e6

  -- On a line that keeps to the protocol, is ready again in fewer looks than the fuel, and is in
  -- use for characters, `serial_init` sets divisor 3, eight bits without parity and one stop bit,
  -- and no interrupts; then `serial_write` of any characters returns and has sent them, in their
  -- order.
  pub serial_init-serial_write :
      (fuel : ℕ) (cs : List ℕ) (d : D)
      → bound < fuel
      → (see d).lag ≤ bound
      → at_divisor (see d) ≡ false
      → (e : D) × (serial_write ports fuel cs (serial_init ports d) ≡ some e)
        × ((see e).sent ≡ reverse cs ++ (see d).sent)
        × ((see (serial_init ports d)).divisor_low ≡ 3)
        × ((see (serial_init ports d)).divisor_high ≡ 0)
        × ((see (serial_init ports d)).control ≡ 3)
        × ((see (serial_init ports d)).interrupts ≡ 0)
  serial_init-serial_write fuel cs d fuel_is lag plain =
      let done = serial_init-IsSet d plain in
      let (e, run, s) =
        serial_write-Sent fuel cs (serial_init ports d) fuel_is
          (omega (arith, lag, ap (λ (u : Uart). u.lag) done)) (ap at_divisor done) in
      (
        e,
        run,
        s.sent ∙ ap (λ (u : Uart). reverse cs ++ u.sent) done,
        ap (λ (u : Uart). u.divisor_low) done,
        ap (λ (u : Uart). u.divisor_high) done,
        ap (λ (u : Uart). u.control) done,
        ap (λ (u : Uart). u.interrupts) done,
      )
