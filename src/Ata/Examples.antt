-- ===== src/Ata/Examples.antt =====
-- A drive that keeps to the protocol, and the theorems on src/driver/ata.c at it.
use beaner_os.Io.{Ports}
use beaner_os.Ata.{ata_read_sectors, ata_write_sectors, is_busy, wants_data, words_of, bytes_of}
use beaner_os.Ata.Bytes.{IsPaired}
use beaner_os.Ata.Drive.{
  IsDrive, Drive, Phase, Comes, idle, giving, taking, is_idle, give_next, take_next, address,
}
use beaner_os.Ata.Read.{IsSector, sectors_from, ata_read_sectors-sectors}
use beaner_os.Ata.Write.{overlay, ata_write_sectors-sectors}
use beaner_os.Base.{
  ◌==◌, if◌then◌else◌, ==_iff, ==-false_of_ne, length, ℕ, zero, suc, ◌+◌, ◌*◌, ◌%◌, ◌<◌, ◌≡◌, refl,
  ap, ◌∙◌, false, not, some, List, [], ◌∷◌, ◌++◌, arith,
}

-- Busy for three looks after each command and each sector.
abbrev settle : Phase → (ℕ → List ℕ) → Drive → Drive
settle p disk v = record v { phase = p; disk = disk; lag = 3 }

abbrev look : (lag : ℕ) → Drive → ℕ × Drive
look (suc n) v = (0x80, record v { lag = n })
look zero v = ((if is_idle v.phase then 0x40 else 0x48), v)

abbrev give : Phase → Drive → ℕ × Drive
give (giving lba left (w ∷ [])) v = (w, settle (give_next v.disk lba left) v.disk v)
give (giving lba left (w ∷ w' ∷ ws)) v = (w, record v { phase = giving lba left (w' ∷ ws) })
give (giving lba left []) v = (0, v)
give idle v = (0, v)
give (taking lba left got) v = (0, v)

abbrev take_one : Phase → (w : ℕ) → Drive → Drive
take_one (taking lba left got) w v =
    if length got == 255
    then settle (take_next lba left)
        (λ t. if t == lba then bytes_of (got ++ (w ∷ [])) else v.disk t) v
    else record v { phase = taking lba left (got ++ (w ∷ [])) }
take_one idle w v = v
take_one (giving lba left ws) w v = v

abbrev begin_read : (count : ℕ) → Drive → Drive
begin_read zero v = v
begin_read (suc n) v = settle (giving (address v) n (words_of (v.disk (address v)))) v.disk v

abbrev begin_write : (count : ℕ) → Drive → Drive
begin_write zero v = v
begin_write (suc n) v = settle (taking (address v) n []) v.disk v

abbrev set_register : (port value : ℕ) → Drive → Drive
set_register port b v =
    if port == 0x1f6
    then record v { drive = b }
    else if port == 0x1f2
    then record v { count = b }
    else if port == 0x1f3
    then record v { low = b }
    else if port == 0x1f4
    then record v { mid = b }
    else if port == 0x1f5
    then record v { high = b }
    else if not (port == 0x1f7)
    then v
    else if b == 0x20
    then begin_read v.count v
    else if b == 0x30
    then begin_write v.count v
    else v

abbrev pub sim : Ports Drive
sim = record {
  inb = λ port v. look v.lag v;
  inw = λ port v. give v.phase v;
  outb = set_register;
  outw = λ port w v. take_one v.phase w v;
}

abbrev pub see : Drive → Drive
see v = v

pub sim-IsDrive : IsDrive sim see 3
sim-IsDrive = record {
  look_busy = λ d n lag. (ap (λ l. is_busy (look l d).0) lag, ap (λ l. (look l d).1) lag);
  look_ready = λ d lag. (
    ap (λ l. is_busy (look l d).0) lag ∙ not_busy d.phase,
    ap (λ l. wants_data (look l d).0) lag ∙ has_data d.phase,
    ap (λ l. (look l d).1) lag,
  );
  set_drive = λ d b byte at lag. refl;
  set_count = λ d b byte at lag. refl;
  set_low = λ d b byte at lag. refl;
  set_mid = λ d b byte at lag. refl;
  set_high = λ d b byte at lag. refl;
  start_read =
      λ d n at lag count. comes _ _ d (begin_read d.count d) (ap (λ c. begin_read c d) count);
  start_write =
      λ d n at lag count. comes _ _ d (begin_write d.count d) (ap (λ c. begin_write c d) count);
  give_word = λ d lba left w w' ws at lag. (ap (λ p. (give p d).0) at, ap (λ p. (give p d).1) at);
  give_last = λ d lba left w at lag.
      (ap (λ p. (give p d).0) at, comes _ _ d (give d.phase d).1 (ap (λ p. (give p d).1) at));
  take_word = λ d lba left w got at lag lt. ap (λ p. take_one p w d) at ∙ more lba left w got d lt;
  take_last = λ d lba left w got at lag e.
      comes _ _ d (take_one d.phase w d) (ap (λ p. take_one p w d) at ∙ whole lba left w got d e);
}
  where
    not_busy : (p : Phase) → is_busy (if is_idle p then 0x40 else 0x48) ≡ false
    not_busy idle = refl
    not_busy (giving lba left ws) = refl
    not_busy (taking lba left got) = refl

    has_data : (p : Phase) → wants_data (if is_idle p then 0x40 else 0x48) ≡ not (is_idle p)
    has_data idle = refl
    has_data (giving lba left ws) = refl
    has_data (taking lba left got) = refl

    comes : (p : Phase) (disk : ℕ → List ℕ) (d v : Drive) → v ≡ settle p disk d → Comes 3 p disk v
    comes p disk d v e = record {
      phase = ap (λ (x : Drive). x.phase) e;
      lag = omega (arith, ap (λ (x : Drive). x.lag) e);
      disk_is = λ t. ap (λ (x : Drive). x.disk t) e;
    }

    more :
        (lba left w : ℕ) (got : List ℕ) (d : Drive)
        → length got < 255
        → take_one (taking lba left got) w d
          ≡ record d { phase = taking lba left (got ++ (w ∷ [])) }
    more lba left w got d lt = rw (==-false_of_ne (length got) 255 (omega (arith, lt))) refl

    whole :
        (lba left w : ℕ) (got : List ℕ) (d : Drive)
        → length got ≡ 255
        → take_one (taking lba left got) w d
          ≡ settle
              (take_next lba left)
              (λ t. if t == lba then bytes_of (got ++ (w ∷ [])) else d.disk t)
              d
    whole lba left w got d e = rw ((==_iff (length got) 255).1 e) refl

-- A sector of one byte, 512 times.
abbrev pairs : (b k : ℕ) → List ℕ
pairs b zero = []
pairs b (suc k) = b ∷ b ∷ pairs b k

pairs-IsPaired : (b k : ℕ) → b < 256 → IsPaired (pairs b k)
pairs-IsPaired b zero lt = tt
pairs-IsPaired b (suc k) lt = (lt, lt, pairs-IsPaired b k lt)

length-pairs : (b k : ℕ) → length (pairs b k) ≡ 2 * k
length-pairs b zero = refl
length-pairs b (suc k) = omega (arith, length-pairs b k)

abbrev pub filled : (shift t : ℕ) → List ℕ
filled shift t = pairs ((t + shift) % 256) 256

pub filled-IsSector : (shift t : ℕ) → IsSector (filled shift t)
filled-IsSector shift t = record {
  size = length-pairs ((t + shift) % 256) 256;
  paired = pairs-IsPaired ((t + shift) % 256) 256 (omega arith);
}

abbrev pub start : Drive
start = record {
  drive = 0;
  count = 0;
  low = 0;
  mid = 0;
  high = 0;
  phase = idle;
  lag = 1;
  disk = filled 0;
}

pub start-Comes : Comes 3 idle (filled 0) start
start-Comes = record { phase = refl; lag = omega arith; disk_is = λ t. refl }

ata_read_sectors-sectors_example :
    (g : Drive) × (ata_read_sectors sim 10 300 2 start ≡ some (sectors_from (filled 0) 300 2, g))
    × Comes 3 idle (filled 0) g
ata_read_sectors-sectors_example =
    ata_read_sectors-sectors sim-IsDrive (filled 0) (filled-IsSector 0) 10 300 1 start (omega arith)
      (omega arith) (omega arith) start-Comes

ata_write_sectors-sectors_example :
    (g : Drive) × (ata_write_sectors sim 10 300 2 (sectors_from (filled 5) 300 2) start ≡ some g)
    × Comes 3 idle (overlay (filled 0) (filled 5) 300 2) g
ata_write_sectors-sectors_example =
    ata_write_sectors-sectors sim-IsDrive (filled 5) (filled-IsSector 5) 10 300 1 (filled 0) start
      (omega arith) (omega arith) (omega arith) start-Comes
