-- ===== src/Ata/Drive.antt =====
-- What src/driver/ata.c relies on in a drive behind its ports: programmed input and output with
-- 28-bit addresses. How long the drive is busy is left open up to a bound.
use beaner_os.Io.{Ports}
use beaner_os.Ata.{
  ata_base, is_busy, wants_data, words_of, bytes_of, wait_until, ata_wait_bsy, ata_wait_drq, ready,
}
use beaner_os.Base.{
  ◌==◌, if◌then◌else◌, length, ℕ, zero, suc, ◌+◌, ◌*◌, ◌%◌, ◌^◌, ◌≤◌, ◌<◌, ◌≡◌, refl, ap, ◌∙◌, Bool,
  true, false, not, some, List, [], ◌∷◌, ◌++◌, arith, Option, none,
}

-- What the drive is about: nothing, or sector `lba` with `left` more to follow, the words of it that
-- the machine has yet to read, or those that it has written.
pub data Phase : Type 0 where
  idle : Phase
  giving : (lba left : ℕ) → List ℕ → Phase
  taking : (lba left : ℕ) → List ℕ → Phase

abbrev pub is_idle : Phase → Bool
is_idle idle = true
is_idle (giving lba left words) = false
is_idle (taking lba left words) = false

-- Its registers; how many looks at the status will find it busy; its sectors.
pub record Drive : Type 0 where
  pub drive : ℕ
  pub count : ℕ
  pub low : ℕ
  pub mid : ℕ
  pub high : ℕ
  pub phase : Phase
  pub lag : ℕ
  pub disk : ℕ → List ℕ

-- The sector that the registers name.
abbrev pub address : Drive → ℕ
address v = v.low + v.mid * 2 ^ 8 + v.high * 2 ^ 16 + v.drive % 16 * 2 ^ 24

-- What comes behind the last word of a sector.
abbrev pub give_next : (disk : ℕ → List ℕ) (lba left : ℕ) → Phase
give_next disk lba zero = idle
give_next disk lba (suc left) = giving (lba + 1) left (words_of (disk (lba + 1)))

abbrev pub take_next : (lba left : ℕ) → Phase
take_next lba zero = idle
take_next lba (suc left) = taking (lba + 1) left []

-- `v` is `w`, but in phase `p`, with `disk`, and for the time that it may be busy.
pub record Comes (bound : ℕ) (p : Phase) (disk : ℕ → List ℕ) (v : Drive) : Type 0 where
  pub phase : v.phase ≡ p
  pub lag : v.lag ≤ bound
  pub disk_is : (t : ℕ) → v.disk t ≡ disk t

-- `see` tells what the drive is like on a machine in a given state.
pub record IsDrive {D : Type 0} (ports : Ports D) (see : D → Drive) (bound : ℕ) : Type 0 where
  pub look_busy :
      (d : D) (n : ℕ)
      → (see d).lag ≡ suc n
      → (is_busy (ports.inb (ata_base + 7) d).0 ≡ true)
        × (see (ports.inb (ata_base + 7) d).1 ≡ record (see d) { lag = n })
  pub look_ready :
      (d : D)
      → (see d).lag ≡ 0
      → (is_busy (ports.inb (ata_base + 7) d).0 ≡ false)
        × (wants_data (ports.inb (ata_base + 7) d).0 ≡ not (is_idle (see d).phase))
        × (see (ports.inb (ata_base + 7) d).1 ≡ see d)
  pub set_drive :
      (d : D) (b : ℕ)
      → b < 2 ^ 8
      → (see d).phase ≡ idle
      → (see d).lag ≡ 0
      → see (ports.outb (ata_base + 6) b d) ≡ record (see d) { drive = b }
  pub set_count :
      (d : D) (b : ℕ)
      → b < 2 ^ 8
      → (see d).phase ≡ idle
      → (see d).lag ≡ 0
      → see (ports.outb (ata_base + 2) b d) ≡ record (see d) { count = b }
  pub set_low :
      (d : D) (b : ℕ)
      → b < 2 ^ 8
      → (see d).phase ≡ idle
      → (see d).lag ≡ 0
      → see (ports.outb (ata_base + 3) b d) ≡ record (see d) { low = b }
  pub set_mid :
      (d : D) (b : ℕ)
      → b < 2 ^ 8
      → (see d).phase ≡ idle
      → (see d).lag ≡ 0
      → see (ports.outb (ata_base + 4) b d) ≡ record (see d) { mid = b }
  pub set_high :
      (d : D) (b : ℕ)
      → b < 2 ^ 8
      → (see d).phase ≡ idle
      → (see d).lag ≡ 0
      → see (ports.outb (ata_base + 5) b d) ≡ record (see d) { high = b }
  pub start_read :
      (d : D) (n : ℕ)
      → (see d).phase ≡ idle
      → (see d).lag ≡ 0
      → (see d).count ≡ suc n
      → Comes bound
          (giving (address (see d)) n (words_of ((see d).disk (address (see d)))))
          (see d).disk
          (see (ports.outb (ata_base + 7) 0x20 d))
  pub start_write :
      (d : D) (n : ℕ)
      → (see d).phase ≡ idle
      → (see d).lag ≡ 0
      → (see d).count ≡ suc n
      → Comes bound
          (taking (address (see d)) n [])
          (see d).disk
          (see (ports.outb (ata_base + 7) 0x30 d))
  pub give_word :
      (d : D) (lba left w w' : ℕ) (ws : List ℕ)
      → (see d).phase ≡ giving lba left (w ∷ w' ∷ ws)
      → (see d).lag ≡ 0
      → ((ports.inw ata_base d).0 ≡ w)
        × (see (ports.inw ata_base d).1 ≡ record (see d) { phase = giving lba left (w' ∷ ws) })
  pub give_last :
      (d : D) (lba left w : ℕ)
      → (see d).phase ≡ giving lba left (w ∷ [])
      → (see d).lag ≡ 0
      → ((ports.inw ata_base d).0 ≡ w)
        × Comes bound (give_next (see d).disk lba left) (see d).disk (see (ports.inw ata_base d).1)
  pub take_word :
      (d : D) (lba left w : ℕ) (got : List ℕ)
      → (see d).phase ≡ taking lba left got
      → (see d).lag ≡ 0
      → length got < 255
      → see (ports.outw ata_base w d) ≡ record (see d) { phase = taking lba left (got ++ (w ∷ [])) }
  pub take_last :
      (d : D) (lba left w : ℕ) (got : List ℕ)
      → (see d).phase ≡ taking lba left got
      → (see d).lag ≡ 0
      → length got ≡ 255
      → Comes bound
          (take_next lba left)
          (λ t. if t == lba then bytes_of (got ++ (w ∷ [])) else (see d).disk t)
          (see (ports.outw ata_base w d))

module _ {D : Type 0} {ports : Ports D} {see : D → Drive} {bound : ℕ}
    (drive : IsDrive ports see bound) where
  -- A drive that is busy for fewer looks than there is fuel is waited for.
  pub ata_wait_bsy-ready :
      (fuel n : ℕ) (d : D)
      → (see d).lag ≡ n
      → n < fuel
      → (e : D) × (ata_wait_bsy ports fuel d ≡ some e) × (see e ≡ record (see d) { lag = 0 })
  unfolding ata_wait_bsy wait_until
  ata_wait_bsy-ready zero n d lag lt = absurd (omega arith)
  ata_wait_bsy-ready (suc k) zero d lag lt =
      let (free, _, same) = drive.look_ready d lag in
      (
        (ports.inb (ata_base + 7) d).1,
        rw free refl,
        same ∙ ap (λ (l : ℕ). record (see d) { lag = l }) lag,
      )
  ata_wait_bsy-ready (suc k) (suc n) d lag lt =
      let (busy, one_less) = drive.look_busy d n lag in
      let d' = (ports.inb (ata_base + 7) d).1 in
      let (e, run, is) =
        ata_wait_bsy-ready k n d' (ap (λ (v : Drive). v.lag) one_less) (omega arith) in
      (e, rw busy run, is ∙ ap (λ (v : Drive). record v { lag = 0 }) one_less)

  ata_wait_drq-ready :
      (fuel : ℕ) (d : D)
      → 0 < fuel
      → (see d).lag ≡ 0
      → is_idle (see d).phase ≡ false
      → (e : D) × (ata_wait_drq ports fuel d ≡ some e) × (see e ≡ see d)
  unfolding ata_wait_drq wait_until
  ata_wait_drq-ready zero d positive lag at = absurd (omega arith)
  ata_wait_drq-ready (suc k) d positive lag at =
      let (_, data_, same) = drive.look_ready d lag in
      ((ports.inb (ata_base + 7) d).1, rw (data_, at) refl, same)

  ready_steps :
      (fuel : ℕ) (d e g : D)
      → ata_wait_bsy ports fuel d ≡ some e
      → ata_wait_drq ports fuel e ≡ some g
      → ready ports fuel d ≡ some g
  unfolding ready
  ready_steps fuel d e g run run' =
      ap (λ (o : Option D). elim o [ none ↦ none | some x ↦ ata_wait_drq ports fuel x ]) run ∙ run'

  -- Both waits before the words of a sector.
  pub ready-run :
      (fuel : ℕ) (d : D)
      → (see d).lag < fuel
      → is_idle (see d).phase ≡ false
      → (e : D) × (ready ports fuel d ≡ some e) × (see e ≡ record (see d) { lag = 0 })
  ready-run fuel d lt at =
      let (e, run, is) = ata_wait_bsy-ready fuel (see d).lag d refl lt in
      let (g, run', is') =
        ata_wait_drq-ready fuel e (omega arith) (ap (λ (v : Drive). v.lag) is)
          (ap (λ (v : Drive). is_idle v.phase) is ∙ at) in
      (g, ready_steps fuel d e g run run', is' ∙ is)
