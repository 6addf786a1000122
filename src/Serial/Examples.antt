-- ===== src/Serial/Examples.antt =====
-- A line in software, and the theorems on src/driver/serial.c at it.
use beaner_os.Io.{Ports}
use beaner_os.Serial.{is_empty, serial_init, serial_write}
use beaner_os.Serial.Line.{Uart, IsLine, at_divisor, serial_init-serial_write}
use beaner_os.Base.{
  ◌==◌, if◌then◌else◌, ℕ, zero, suc, ◌≡◌, refl, ap, Bool, some, [], ◌∷◌, ◌++◌, reverse, arith,
  codes,
}

abbrev look : (lag : ℕ) → Uart → ℕ × Uart
look (suc n) u = (0, record u { lag = n })
look zero u = (0x60, u)

abbrev out_at : (divisor : Bool) (port value : ℕ) → Uart → Uart
out_at divisor port b u =
    if port == 0x3f8
    then (if divisor then record u { divisor_low = b } else record u { sent = b ∷ u.sent; lag = 2 })
    else if port == 0x3f9
    then (if divisor then record u { divisor_high = b } else record u { interrupts = b })
    else if port == 0x3fa
    then record u { fifo = b }
    else if port == 0x3fb
    then record u { control = b }
    else if port == 0x3fc
    then record u { modem = b }
    else u

abbrev pub sim : Ports Uart
sim = record {
  inb = λ port u. if port == 0x3fd then look u.lag u else (0, u);
  inw = λ port u. (0, u);
  outb = λ port b u. out_at (at_divisor u) port b u;
  outw = λ port b u. u;
}

abbrev pub see : Uart → Uart
see u = u

pub sim-IsLine : IsLine sim see 2
sim-IsLine = record {
  look_full = λ d n lag. (ap (λ l. is_empty (look l d).0) lag, ap (λ l. (look l d).1) lag);
  look_empty = λ d lag. (ap (λ l. is_empty (look l d).0) lag, ap (λ l. (look l d).1) lag);
  out_low = λ d b is. ap (λ x. out_at x 0x3f8 b d) is;
  out_high = λ d b is. ap (λ x. out_at x 0x3f9 b d) is;
  out_char = λ d c is lag. (2, omega arith, ap (λ x. out_at x 0x3f8 c d) is);
  out_interrupts = λ d b is. ap (λ x. out_at x 0x3f9 b d) is;
  out_fifo = λ d b. refl;
  out_control = λ d b. refl;
  out_modem = λ d b. refl;
}

abbrev pub idle : Uart
idle = record {
  divisor_low = 12;
  divisor_high = 0;
  interrupts = 1;
  fifo = 0;
  control = 3;
  modem = 0;
  sent = [];
  lag = 1;
}

serial_init-serial_write_example :
    (e : Uart) × (serial_write sim 5 (codes "ok\n") (serial_init sim idle) ≡ some e)
    × (e.sent ≡ reverse (codes "ok\n") ++ [])
    × ((serial_init sim idle).divisor_low ≡ 3)
    × ((serial_init sim idle).divisor_high ≡ 0)
    × ((serial_init sim idle).control ≡ 3)
    × ((serial_init sim idle).interrupts ≡ 0)
serial_init-serial_write_example =
    serial_init-serial_write sim-IsLine 5 (codes "ok\n") idle (omega arith) (omega arith) refl
