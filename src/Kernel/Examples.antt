-- ===== src/Kernel/Examples.antt =====
-- The theorems on src/kernel/kernel.c at concrete inputs.
use beaner_os.Idt.{no_gate}
use beaner_os.Keyboard.{loaded}
use beaner_os.Ata.Drive.{Drive, Comes, idle}
use beaner_os.Ata.Write.{overlay}
use beaner_os.Ata.Examples as Ata
use beaner_os.Serial.Line.{Uart}
use beaner_os.Serial.Examples as Line
use beaner_os.Fat.Examples.{Ram}
use beaner_os.Fat.Entries.{globals, fresh}
use beaner_os.Kernel.{Kernel}
use beaner_os.Kernel.Disk.{fat_read_sector, fat_write_sector, fat_read_sector-fat_write_sector}
use beaner_os.Base.{replicate, ◌≡◌, true, some, [], arith, none}

fat_read_sector-fat_write_sector_example :
    (g h k : Drive) × (fat_write_sector Ata.sim 10 (Ata.filled 5 1) 300 Ata.start ≡ some (true, g))
    × (fat_read_sector Ata.sim 10 300 g ≡ some (true, Ata.filled 5 1, h))
    × (fat_read_sector Ata.sim 10 7 h ≡ some (true, Ata.filled 0 7, k))
    × Comes 3 idle (overlay (Ata.filled 0) (λ _. Ata.filled 5 1) 300 1) k
fat_read_sector-fat_write_sector_example =
    fat_read_sector-fat_write_sector Ata.sim-IsDrive 10 (Ata.filled 0) (Ata.filled 5 1) 300 7
      Ata.start (Ata.filled-IsSector 0) (Ata.filled-IsSector 5 1) (omega arith) (omega arith)
      (omega arith) (omega arith) Ata.start-Comes

-- The machine as it is handed over, with numbers for the addresses.
abbrev handed : Kernel Uart Ram
handed = record {
  tty = record { row = 0; column = 0; color = 0; buffer = λ _. 0; serial = []; outs = [] };
  ports = Line.idle;
  timer = record {
    tick_count = 0;
    idt = record {
      gates = replicate 256 no_gate;
      handlers = replicate 256 0;
      outs = [];
      table = 0x0011_0000;
      loaded = none;
    };
  };
  keyboard = loaded;
  pmm = record { bitmap = []; total_frames = 0; free_frames = 0; first_frame = 0 };
  heap = [];
  globals = globals;
  fat = fresh;
}
