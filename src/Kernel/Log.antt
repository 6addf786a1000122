-- ===== src/Kernel/Log.antt =====
-- What kmain of src/kernel/kernel.c puts on the terminal, on the serial line.
use mathlib.Core.List.{reverse-reverse, append_assoc}
use beaner_os.Io.{Ports}
use beaner_os.Serial.{serial_write}
use beaner_os.Serial.Line.{Uart, IsLine, at_divisor, serial_write-Sent}
use beaner_os.Tty
use beaner_os.Kernel.{Kernel, on_tty}
use beaner_os.Base.{
  ℕ, ◌≤◌, ◌<◌, ◌≡◌, refl, sym, ap, ◌∙◌, Bool, false, Option, none, some, List, [], ◌++◌, reverse,
  ◌==◌, ◌/◌, ◌%◌, ◌^◌, not,
}

-- The line is in use for characters, and ready soon enough.
pub record InUse (bound : ℕ) (u : Uart) : Type 0 where
  pub lag : u.lag ≤ bound
  pub plain : at_divisor u ≡ false

-- `l`, the latest first, is put on the terminal, and sent on the line.
pub record Logged (l : List ℕ) (t t' : Tty.Tty) (u u' : Uart) : Type 0 where
  pub shown : t'.serial ≡ l ++ t.serial
  pub sent : u'.sent ≡ l ++ u.sent

pub Logged-trans :
    (l m : List ℕ) {t t' t'' : Tty.Tty} {u u' u'' : Uart}
    → Logged l t t' u u'
    → Logged m t' t'' u' u''
    → Logged (m ++ l) t t'' u u''
Logged-trans l m {t} {t'} {t''} {u} {u'} {u''} a b = record {
  shown = b.shown ∙ ap (λ s. m ++ s) a.shown ∙ sym (append_assoc m l t.serial);
  sent = b.sent ∙ ap (λ s. m ++ s) a.sent ∙ sym (append_assoc m l u.sent);
}

module _ {P D : Type 0} (see : P → Uart) (bound : ℕ) where
  -- `k'` is `k` after something is shown: only the terminal and the line have changed.
  pub record Said (k k' : Kernel P D) : Type 0 where
    pub log : List ℕ
    pub logged : Logged log k.tty k'.tty (see k.ports) (see k'.ports)
    pub in_use : InUse bound (see k'.ports)
    pub timer : k'.timer ≡ k.timer
    pub keyboard : k'.keyboard ≡ k.keyboard
    pub pmm : k'.pmm ≡ k.pmm
    pub heap : k'.heap ≡ k.heap
    pub globals : k'.globals ≡ k.globals
    pub fat : k'.fat ≡ k.fat

module _ {P D : Type 0} {ports : Ports P} {see : P → Uart} {bound : ℕ}
    (line : IsLine ports see bound) (fuel : ℕ) (fuel_is : bound < fuel) where
  on_tty-run :
      (draw : Tty.Tty → Tty.Tty) (k : Kernel P D) (p : P)
      → serial_write ports fuel (reverse (draw (record k.tty { serial = [] })).serial) k.ports
        ≡ some p
      → let t = draw (record k.tty { serial = [] }) in
        on_tty ports fuel draw k
        ≡ some (record k { tty = record t { serial = t.serial ++ k.tty.serial }; ports = p })
  unfolding on_tty
  on_tty-run draw k p run =
      ap
        (λ (o : Option P). elim o as (λ _. Option (Kernel P D)) [
          | none ↦ none
          | some q ↦
              let t = draw (record k.tty { serial = [] }) in
              some (record k { tty = record t { serial = t.serial ++ k.tty.serial }; ports = q })
        ])
        run

  -- Whatever is shown, it comes back, and all of it is sent.
  pub on_tty-Said :
      (draw : Tty.Tty → Tty.Tty) (k : Kernel P D)
      → InUse bound (see k.ports)
      → (k' : Kernel P D) × (on_tty ports fuel draw k ≡ some k') × Said see bound k k'
  on_tty-Said draw k use_ =
      let l = (draw (record k.tty { serial = [] })).serial in
      let (p, run, s) =
        serial_write-Sent line fuel (reverse l) k.ports fuel_is use_.lag use_.plain in
      (
        _,
        on_tty-run draw k p run,
        record {
          log = l;
          logged = record {
            shown = refl;
            sent = s.sent ∙ ap (λ xs. xs ++ (see k.ports).sent) (reverse-reverse l);
          };
          in_use = record { lag = s.lag; plain = ap plain_of s.control ∙ use_.plain };
          timer = refl;
          keyboard = refl;
          pmm = refl;
          heap = refl;
          globals = refl;
          fat = refl;
        },
      )
    where
      plain_of : ℕ → Bool
      plain_of c = not (c / 2 ^ 7 % 2 == 0)
