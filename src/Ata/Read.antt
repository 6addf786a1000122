-- ===== src/Ata/Read.antt =====
-- ata_read_sectors of src/driver/ata.c on a drive that keeps to the protocol.
use native.Mathlib.Nat.{mod-eq_of_lt}
use beaner_os.Io.{Ports}
use beaner_os.Ata.{
  ata_base, in_words, ready, read_loop, ata_read_sectors, ata_wait_bsy, command, words_of, bytes_of,
}
use beaner_os.Ata.Bytes.{IsPaired, bytes_of-words_of}
use beaner_os.Ata.Drive.{
  IsDrive, Drive, Comes, idle, giving, give_next, is_idle, ready-run, ata_wait_bsy-ready,
}
use beaner_os.Ata.Command.{command-giving}
use beaner_os.Base.{
  length, ℕ, zero, suc, ◌+◌, ◌*◌, ◌≡◌, refl, ap, ◌∙◌, some, List, [], ◌∷◌, ◌++◌, arith, ◌^◌, ◌<◌,
  sym, none, ◌%◌,
}

-- 512 bytes.
pub record IsSector (b : List ℕ) : Type 0 where
  pub size : length b ≡ 512
  pub paired : IsPaired b

-- `n` sectors, from `lba` on.
abbrev pub sectors_from : (disk : ℕ → List ℕ) (lba n : ℕ) → List ℕ
sectors_from disk lba zero = []
sectors_from disk lba (suc n) = disk lba ++ sectors_from disk (lba + 1) n

pub length-words_of : (b : List ℕ) → IsPaired b → 2 * length (words_of b) ≡ length b
unfolding words_of
length-words_of [] p = omega arith
length-words_of (lo ∷ []) p = absurd p
length-words_of (lo ∷ hi ∷ b) (_, _, p) = omega (arith, length-words_of b p)

module _ {D : Type 0} {ports : Ports D} {see : D → Drive} {bound : ℕ}
    (drive : IsDrive ports see bound) where
  in_words_step :
      (n w : ℕ) (ws : List ℕ) (d g : D)
      → (ports.inw ata_base d).0 ≡ w
      → in_words ports n (ports.inw ata_base d).1 ≡ (ws, g)
      → in_words ports (suc n) d ≡ (w ∷ ws, g)
  unfolding in_words
  in_words_step n w ws d g e rest = cc

  in_words-gives :
      (w : ℕ) (ws : List ℕ) (lba left : ℕ) (d : D)
      → (see d).phase ≡ giving lba left (w ∷ ws)
      → (see d).lag ≡ 0
      → (g : D) × (in_words ports (length (w ∷ ws)) d ≡ (w ∷ ws, g))
        × Comes bound (give_next (see d).disk lba left) (see d).disk (see g)
  unfolding in_words
  in_words-gives w [] lba left d at lag =
      let (e, c) = drive.give_last d lba left w at lag in
      ((ports.inw ata_base d).1, in_words_step 0 w [] d _ e refl, c)
  in_words-gives w (w' ∷ ws) lba left d at lag =
      let (e, same) = drive.give_word d lba left w w' ws at lag in
      let (g, run, c) =
        in_words-gives w' ws lba left (ports.inw ata_base d).1 (ap (λ (v : Drive). v.phase) same)
          (ap (λ (v : Drive). v.lag) same ∙ lag) in
      (
        g,
        in_words_step (length (w' ∷ ws)) w (w' ∷ ws) d g e run,
        record {
          phase = c.phase ∙ ap (λ (v : Drive). give_next v.disk lba left) same;
          lag = c.lag;
          disk_is = λ t. c.disk_is t ∙ ap (λ (v : Drive). v.disk t) same;
        },
      )

  read_step :
      (fuel n : ℕ) (d e g h : D) (words rest : List ℕ)
      → ready ports fuel d ≡ some e
      → in_words ports 256 e ≡ (words, g)
      → read_loop ports fuel n g ≡ some (rest, h)
      → read_loop ports fuel (suc n) d ≡ some (bytes_of words ++ rest, h)
  unfolding read_loop
  read_step fuel n d e g h words rest run run' run'' = cc

  in_words-all :
      (ws : List ℕ) (lba left : ℕ) (d : D)
      → length ws ≡ 256
      → (see d).phase ≡ giving lba left ws
      → (see d).lag ≡ 0
      → (g : D) × (in_words ports 256 d ≡ (ws, g))
        × Comes bound (give_next (see d).disk lba left) (see d).disk (see g)
  in_words-all [] lba left d size at lag = absurd (omega (arith, size))
  in_words-all (w ∷ ws) lba left d size at lag =
      let (g, run, c) = in_words-gives w ws lba left d at lag in
      (g, ap (λ n. in_words ports n d) (sym size) ∙ run, c)

  module _ (disk : ℕ → List ℕ) (sectors : (t : ℕ) → IsSector (disk t)) where
    -- One sector, waited for and read.
    sector-gives :
        (fuel lba left : ℕ) (d : D)
        → bound < fuel
        → Comes bound (giving lba left (words_of (disk lba))) disk (see d)
        → (e g : D) × (ready ports fuel d ≡ some e)
          × (in_words ports 256 e ≡ (words_of (disk lba), g))
          × Comes bound (give_next disk lba left) disk (see g)
    sector-gives fuel lba left d fuel_is c =
        let (e, run, is) = ready-run drive fuel d (omega (arith, c.lag)) (ap is_idle c.phase) in
        let s = sectors lba in
        let (g, run', c') =
          in_words-all (words_of (disk lba)) lba left e
            (omega (arith, length-words_of (disk lba) s.paired, s.size))
            (ap (λ (v : Drive). v.phase) is ∙ c.phase) (ap (λ (v : Drive). v.lag) is) in
        let there : (t : ℕ) → (see e).disk t ≡ disk t =
          λ t. ap (λ (v : Drive). v.disk t) is ∙ c.disk_is t in
        (
          e,
          g,
          run,
          run',
          record {
            phase = c'.phase ∙ give_next-along (see e).disk disk lba left there;
            lag = c'.lag;
            disk_is = λ t. c'.disk_is t ∙ there t;
          },
        )
      where
        give_next-along :
            (disk1 disk2 : ℕ → List ℕ) (lba left : ℕ)
            → ((t : ℕ) → disk1 t ≡ disk2 t)
            → give_next disk1 lba left ≡ give_next disk2 lba left
        give_next-along disk1 disk2 lba zero same = refl
        give_next-along disk1 disk2 lba (suc left) same =
            ap (λ b. giving (lba + 1) left (words_of b)) (same (lba + 1))

    read_loop-gives :
        (fuel n lba : ℕ) (d : D)
        → bound < fuel
        → Comes bound (giving lba n (words_of (disk lba))) disk (see d)
        → (g : D) × (read_loop ports fuel (suc n) d ≡ some (sectors_from disk lba (suc n), g))
          × Comes bound idle disk (see g)
    unfolding read_loop
    read_loop-gives fuel zero lba d fuel_is c =
        let (e, g, run, run', c') = sector-gives fuel lba 0 d fuel_is c in
        (
          g,
          read_step fuel 0 d e g g (words_of (disk lba)) [] run run' refl
              ∙ ap (λ b. some (b ++ [], g)) (bytes_of-words_of (disk lba) (sectors lba).paired),
          c',
        )
    read_loop-gives fuel (suc n) lba d fuel_is c =
        let (e, g, run, run', c') = sector-gives fuel lba (suc n) d fuel_is c in
        let (h, rest, c'') = read_loop-gives fuel n (lba + 1) g fuel_is c' in
        (
          h,
          read_step fuel (suc n) d e g h (words_of (disk lba)) _ run run' rest
              ∙ ap (λ b. some (b ++ sectors_from disk (lba + 1) (suc n), h))
                  (bytes_of-words_of (disk lba) (sectors lba).paired),
          c'',
        )

    ata_read_sectors-steps :
        (fuel lba n : ℕ) (d e g : D) (bytes : List ℕ)
        → ata_wait_bsy ports fuel d ≡ some e
        → n < 2 ^ 8
        → read_loop ports fuel n (command ports lba n 0x20 e) ≡ some (bytes, g)
        → ata_read_sectors ports fuel lba n d ≡ some (bytes, g)
    unfolding ata_read_sectors
    ata_read_sectors-steps fuel lba n d e g bytes run byte run' =
        ap
          (λ o. elim o [
            | none ↦ none
            | some x ↦ read_loop ports fuel (n % 2 ^ 8) (command ports lba (n % 2 ^ 8) 0x20 x)
          ])
          run
        ∙ ap (λ k. read_loop ports fuel k (command ports lba k 0x20 e)) (mod-eq_of_lt byte)
        ∙ run'

    -- On a drive that keeps to the protocol, is idle, and is busy for fewer looks than the fuel,
    -- `ata_read_sectors` of 1 to 255 sectors, all below 2 ^ 28, returns the bytes of those sectors
    -- in their order; the drive is idle again and holds what it held.
    pub ata_read_sectors-sectors :
        (fuel lba n : ℕ) (d : D)
        → bound < fuel
        → lba + n < 2 ^ 28
        → suc n < 2 ^ 8
        → Comes bound idle disk (see d)
        → (g : D) × (ata_read_sectors ports fuel lba (suc n) d
            ≡ some (sectors_from disk lba (suc n), g))
          × Comes bound idle disk (see g)
    ata_read_sectors-sectors fuel lba n d fuel_is lt byte c =
        let (e, wait, is) =
          ata_wait_bsy-ready drive fuel (see d).lag d refl (omega (arith, c.lag)) in
        let b =
          command-giving drive lba n e (omega (arith, lt)) byte
            (ap (λ (v : Drive). v.phase) is ∙ c.phase) (ap (λ (v : Drive). v.lag) is) in
        let there : (t : ℕ) → (see e).disk t ≡ disk t =
          λ t. ap (λ (v : Drive). v.disk t) is ∙ c.disk_is t in
        let (g, run, c') =
          read_loop-gives fuel n lba (command ports lba (suc n) 0x20 e) fuel_is (record {
            phase = b.phase ∙ ap (λ s. giving lba n (words_of s)) (there lba);
            lag = b.lag;
            disk_is = λ t. b.disk_is t ∙ there t;
          }) in
        (g, ata_read_sectors-steps fuel lba (suc n) d e g _ wait byte run, c')
