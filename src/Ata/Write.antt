-- ===== src/Ata/Write.antt =====
-- ata_write_sectors of src/driver/ata.c on a drive that keeps to the protocol.
use native.Mathlib.Nat.{mod-eq_of_lt}
use beaner_os.Io.{Ports}
use beaner_os.Ata.{
  ata_base, out_words, ready, write_loop, ata_write_sectors, ata_wait_bsy, command, words_of,
  bytes_of,
}
use beaner_os.Ata.Bytes.{bytes_of-words_of}
use beaner_os.Ata.Drive.{
  IsDrive, Drive, Comes, idle, taking, take_next, is_idle, ready-run, ata_wait_bsy-ready,
}
use beaner_os.Ata.Command.{command-taking}
use beaner_os.Ata.Read.{IsSector, sectors_from, length-words_of}
use beaner_os.Base.{
  ltb, leb, ◌==◌, if◌then◌else◌, length, take, drop, length-append, ℕ, zero, suc, ◌+◌, ◌^◌, ◌<◌,
  ◌≡◌, refl, ap, ◌∙◌, ◌&&◌, none, some, List, [], ◌∷◌, ◌++◌, arith, snoc-append, drop-whole,
  take-whole, ◌%◌,
}

-- The sectors of `disk`, but for `n` of them from `lba` on, which are those of `src`.
abbrev pub overlay : (disk src : ℕ → List ℕ) (lba n : ℕ) → ℕ → List ℕ
overlay disk src lba n t = if leb lba t && ltb t (lba + n) then src t else disk t

abbrev put_sector : (disk : ℕ → List ℕ) (lba : ℕ) → List ℕ → ℕ → List ℕ
put_sector disk lba b t = if t == lba then b else disk t

overlay-put_sector :
    (disk src : ℕ → List ℕ) (lba n t : ℕ)
    → overlay (put_sector disk lba (src lba)) src (lba + 1) n t ≡ overlay disk src lba (suc n) t
overlay-put_sector disk src lba n t = ground (arith, ap src)

overlay-one :
    (disk src : ℕ → List ℕ) (lba t : ℕ) → put_sector disk lba (src lba) t ≡ overlay disk src lba 1 t
overlay-one disk src lba t = ground (arith, ap src)

module _ {D : Type 0} {ports : Ports D} {see : D → Drive} {bound : ℕ}
    (drive : IsDrive ports see bound) where
  -- The words of the rest of a sector, behind those that the drive has.
  out_words-takes :
      (w : ℕ) (ws got : List ℕ) (lba left : ℕ) (d : D)
      → (see d).phase ≡ taking lba left got
      → (see d).lag ≡ 0
      → length got + length (w ∷ ws) ≡ 256
      → Comes bound
          (take_next lba left)
          (put_sector (see d).disk lba (bytes_of (got ++ (w ∷ ws))))
          (see (out_words ports (w ∷ ws) d))
  unfolding out_words
  out_words-takes w [] got lba left d at lag size =
      drive.take_last d lba left w got at lag (omega (arith, size))
  out_words-takes w (w' ∷ ws) got lba left d at lag size =
      let same = drive.take_word d lba left w got at lag (omega (arith, size)) in
      let c =
        out_words-takes w' ws (got ++ (w ∷ [])) lba left (ports.outw ata_base w d)
          (ap (λ (v : Drive). v.phase) same) (ap (λ (v : Drive). v.lag) same ∙ lag)
          (omega (arith, size, length-append got (w ∷ []))) in
      record {
        phase = c.phase;
        lag = c.lag;
        disk_is = λ t.
            c.disk_is t
            ∙ ap
                (λ (v : Drive). put_sector v.disk lba (bytes_of ((got ++ (w ∷ [])) ++ (w' ∷ ws))) t)
                same
            ∙ ap (λ ws'. put_sector (see d).disk lba (bytes_of ws') t)
                (snoc-append got w (w' ∷ ws));
      }

  out_words-all :
      (ws : List ℕ) (lba left : ℕ) (d : D)
      → length ws ≡ 256
      → (see d).phase ≡ taking lba left []
      → (see d).lag ≡ 0
      → Comes bound
          (take_next lba left)
          (put_sector (see d).disk lba (bytes_of ws))
          (see (out_words ports ws d))
  out_words-all [] lba left d size at lag = absurd (omega (arith, size))
  out_words-all (w ∷ ws) lba left d size at lag =
      out_words-takes w ws [] lba left d at lag (omega (arith, size))

  write_step :
      (fuel n : ℕ) (buffer : List ℕ) (d e h : D)
      → ready ports fuel d ≡ some e
      → write_loop ports fuel n (drop 512 buffer) (out_words ports (words_of (take 512 buffer)) e)
        ≡ some h
      → write_loop ports fuel (suc n) buffer d ≡ some h
  unfolding write_loop
  write_step fuel n buffer d e h run run' = cc

  module _ (src : ℕ → List ℕ) (sectors : (t : ℕ) → IsSector (src t)) where
    -- One sector, waited for and written.
    sector-takes :
        (fuel lba left : ℕ) (disk : ℕ → List ℕ) (d : D)
        → bound < fuel
        → Comes bound (taking lba left []) disk (see d)
        → (e : D) × (ready ports fuel d ≡ some e)
          × Comes bound
              (take_next lba left)
              (put_sector disk lba (src lba))
              (see (out_words ports (words_of (src lba)) e))
    sector-takes fuel lba left disk d fuel_is c =
        let (e, run, is) = ready-run drive fuel d (omega (arith, c.lag)) (ap is_idle c.phase) in
        let s = sectors lba in
        let c' =
          out_words-all (words_of (src lba)) lba left e
            (omega (arith, length-words_of (src lba) s.paired, s.size))
            (ap (λ (v : Drive). v.phase) is ∙ c.phase) (ap (λ (v : Drive). v.lag) is) in
        (
          e,
          run,
          record {
            phase = c'.phase;
            lag = c'.lag;
            disk_is = λ t.
                c'.disk_is t
                ∙ ap (λ b. put_sector (see e).disk lba b t) (bytes_of-words_of (src lba) s.paired)
                ∙ ap (λ (v : Drive). put_sector v.disk lba (src lba) t) is
                ∙ ap (λ b. if t == lba then src lba else b) (c.disk_is t);
          },
        )

    cut :
        (fuel n lba : ℕ) (e h : D)
        → write_loop ports fuel n
            (sectors_from src (lba + 1) n)
            (out_words ports (words_of (src lba)) e)
          ≡ some h
        → write_loop ports fuel n
            (drop 512 (sectors_from src lba (suc n)))
            (out_words ports (words_of (take 512 (sectors_from src lba (suc n)))) e)
          ≡ some h
    cut fuel n lba e h run =
        let rest = sectors_from src (lba + 1) n in
        ap
          (λ b.
            write_loop ports fuel n b (out_words ports (words_of (take 512 (src lba ++ rest))) e))
          (drop-whole 512 (src lba) rest (sectors lba).size)
        ∙ ap (λ b. write_loop ports fuel n rest (out_words ports (words_of b) e))
            (take-whole 512 (src lba) rest (sectors lba).size)
        ∙ run

    write_loop-takes :
        (fuel n lba : ℕ) (disk : ℕ → List ℕ) (d : D)
        → bound < fuel
        → Comes bound (taking lba n []) disk (see d)
        → (g : D) × (write_loop ports fuel (suc n) (sectors_from src lba (suc n)) d ≡ some g)
          × Comes bound idle (overlay disk src lba (suc n)) (see g)
    unfolding write_loop
    write_loop-takes fuel zero lba disk d fuel_is c =
        let (e, run, c') = sector-takes fuel lba 0 disk d fuel_is c in
        let g = out_words ports (words_of (src lba)) e in
        (
          g,
          write_step fuel 0 (sectors_from src lba 1) d e g run (cut fuel 0 lba e g refl),
          record {
            phase = c'.phase;
            lag = c'.lag;
            disk_is = λ t. c'.disk_is t ∙ overlay-one disk src lba t;
          },
        )
    write_loop-takes fuel (suc n) lba disk d fuel_is c =
        let (e, run, c') = sector-takes fuel lba (suc n) disk d fuel_is c in
        let g = out_words ports (words_of (src lba)) e in
        let (h, rest, c'') =
          write_loop-takes fuel n (lba + 1) (put_sector disk lba (src lba)) g fuel_is c' in
        (
          h,
          write_step fuel (suc n) (sectors_from src lba (suc (suc n))) d e h run
              (cut fuel (suc n) lba e h rest),
          record {
            phase = c''.phase;
            lag = c''.lag;
            disk_is = λ t. c''.disk_is t ∙ overlay-put_sector disk src lba (suc n) t;
          },
        )

    ata_write_sectors-steps :
        (fuel lba n : ℕ) (buffer : List ℕ) (d e g : D)
        → ata_wait_bsy ports fuel d ≡ some e
        → n < 2 ^ 8
        → write_loop ports fuel n buffer (command ports lba n 0x30 e) ≡ some g
        → ata_write_sectors ports fuel lba n buffer d ≡ some g
    unfolding ata_write_sectors
    ata_write_sectors-steps fuel lba n buffer d e g run byte run' =
        ap
          (λ o. elim o [
            | none ↦ none
            | some x ↦
                write_loop ports fuel (n % 2 ^ 8) buffer (command ports lba (n % 2 ^ 8) 0x30 x)
          ])
          run
        ∙ ap (λ k. write_loop ports fuel k buffer (command ports lba k 0x30 e)) (mod-eq_of_lt byte)
        ∙ run'

    -- On a drive that keeps to the protocol, is idle, and is busy for fewer looks than the fuel,
    -- `ata_write_sectors` of the bytes of 1 to 255 sectors, all below 2 ^ 28, returns; the drive
    -- is idle again, holds those bytes in those sectors, and in all others what it held.
    pub ata_write_sectors-sectors :
        (fuel lba n : ℕ) (disk : ℕ → List ℕ) (d : D)
        → bound < fuel
        → lba + n < 2 ^ 28
        → suc n < 2 ^ 8
        → Comes bound idle disk (see d)
        → (g : D) × (ata_write_sectors ports fuel lba (suc n) (sectors_from src lba (suc n)) d
            ≡ some g)
          × Comes bound idle (overlay disk src lba (suc n)) (see g)
    ata_write_sectors-sectors fuel lba n disk d fuel_is lt byte c =
        let (e, wait, is) =
          ata_wait_bsy-ready drive fuel (see d).lag d refl (omega (arith, c.lag)) in
        let b =
          command-taking drive lba n e (omega (arith, lt)) byte
            (ap (λ (v : Drive). v.phase) is ∙ c.phase) (ap (λ (v : Drive). v.lag) is) in
        let (g, run, c') =
          write_loop-takes fuel n lba disk (command ports lba (suc n) 0x30 e) fuel_is (record {
            phase = b.phase;
            lag = b.lag;
            disk_is = λ t. b.disk_is t ∙ ap (λ (v : Drive). v.disk t) is ∙ c.disk_is t;
          }) in
        (g, ata_write_sectors-steps fuel lba (suc n) _ d e g wait byte run, c')
