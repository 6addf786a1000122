-- ===== src/Kernel/Boot.antt =====
-- What kmain of src/kernel/kernel.c leaves for the shell.
use beaner_os.Serial.Line.{Uart}
use beaner_os.Idt.{Idt, irq_handler, idt_entries}
use beaner_os.Timer.{Timer}
use beaner_os.Keyboard.{Keyboard}
use beaner_os.Pmm
use beaner_os.Pmm.Alloc
use beaner_os.Kheap
use beaner_os.Kheap.Tiles.{IsHeap}
use beaner_os.Fat.State.{Fat}
use beaner_os.Fat.Mount.{Globals}
use beaner_os.Kernel.{Kernel}
use beaner_os.Base.{set, replicate, ℕ, ◌+◌, ◌*◌, ◌≤◌, ◌<◌, ◌≡◌, none, some, List, ◌++◌, reverse}
use beaner_os.Kernel.Steps.{greeting}

-- The interrupts lead to the drivers; the queue of keys is empty; memory is ready, the heap below
-- the frames; the volume is as fat_mount has left it; and the greeting is sent.
pub record IsBooted {P D : Type 0} (see : P → Uart) (tick key : ℕ) (g : Globals) (f : Fat D)
    (k k' : Kernel P D) : Type 0 where
  pub timer : (irq_handler 32 k'.timer.idt).0 ≡ some tick
  pub keyboard : (irq_handler 33 k'.timer.idt).0 ≡ some key
  pub others : (n : ℕ) → 34 ≤ n → n < idt_entries → (irq_handler n k'.timer.idt).0 ≡ none
  pub table : k'.timer.idt.loaded ≡ some (2047, k.timer.idt.table)
  pub no_keys : k'.keyboard.read ≡ k'.keyboard.write
  pub frames : Pmm.Alloc.IsValid k'.pmm
  pub free : k'.pmm.free_frames ≡ 7168
  pub heap : IsHeap k'.heap
  pub apart : Kheap.heap_start + Kheap.heap_size ≤ k'.pmm.first_frame * Pmm.frame_size
  pub globals : k'.globals ≡ g
  pub fat : k'.fat ≡ f
  pub before : List ℕ
  pub after : List ℕ
  pub shown : k'.tty.serial ≡ after ++ (before ++ k.tty.serial)
  pub sent : (see k'.ports).sent ≡ after ++ (reverse greeting ++ (before ++ (see k.ports).sent))

-- The table of handlers once both drivers are registered.
abbrev table : (tick key : ℕ) → List ℕ
table tick key = set (set (replicate idt_entries 0) 32 tick) 33 key
