-- ===== src/Fat/File/Lost.antt =====
-- What fat_file_write of src/fs/fat.c does to an open file whose size is 0.
use beaner_os.Base.{
  ℕ, Bool, zero, suc, ◌+◌, ◌-◌, ◌≤◌, ◌≡◌, refl, true, false, not, ◌==◌, ◌||◌, ltb, if◌then◌else◌,
  List, [], ◌∷◌, length, drop, min, pos, arith, ap, ◌∙◌, take, ◌%◌,
}
use beaner_os.Fat.State.{Fat, DiskOps, ok}
use beaner_os.Fat.Chain.{Junk}
use beaner_os.Fat.File.{
  F, File, set_empty, file_seek, move_to, curr, write_loop, file_write, add_bytes, put_bytes,
  after_write,
}

length-drop : (n : ℕ) (xs : List ℕ) → length (drop n xs) ≡ length xs - n
length-drop zero xs = omega arith
length-drop (suc n) [] = omega arith
length-drop (suc n) (x ∷ xs) = omega (arith, length-drop n xs)

not_below : {a b : ℕ} → b ≤ a → ltb a b ≡ false
not_below le = ground arith

guard_passes : {A : Type 0} {b : Bool} → b ≡ true → (x y : A) → (if not b then x else y) ≡ y
guard_passes e x y = rw e refl

-- An open file that its `size` says is empty.
pub record IsEmpty (x : File) : Type 0 where
  pub opened : x.opened ≡ true
  pub size : x.size ≡ 0
  pub offset : x.offset ≡ 0

-- What one round of the loop writes, and the file with it in the buffer.
abbrev chunk : List ℕ → File → ℕ
chunk src x = min (length src) (512 - x.offset % 512)

abbrev filled : List ℕ → File → File
filled src x = record x {
  buf = put_bytes x.buf (x.offset % 512) (take (chunk src x) src);
  dirty = true;
}

module _ {D : Type 0} (ops : DiskOps D) (junk : Junk) where
  seek-IsEmpty :
      (n : ℕ) (x : File) (f : Fat D)
      → IsEmpty x
      → n ≤ 512
      → file_seek ops junk (pos n) curr x f ≡ (ok tt, set_empty x, f)
  unfolding file_seek move_to
  seek-IsEmpty n x f v le =
      let near : ltb 0xffff_ffff (x.offset + n) ≡ false = not_below (omega (arith, v.offset)) in
      let nothing : ((x.sclust == 0) || (x.size == 0)) ≡ true = ground (arith, v.size) in
      rw (v.opened, near, nothing) refl

  write_step :
      (k b : ℕ) (src : List ℕ) (x y z : File) (f g : Fat D) (n : ℕ)
      → file_seek ops junk (pos (chunk (b ∷ src) x)) curr (filled (b ∷ src) x) f ≡ (ok tt, y, g)
      → write_loop ops junk k (drop (chunk (b ∷ src) x) (b ∷ src)) y g ≡ (ok n, z, g)
      → write_loop ops junk (suc k) (b ∷ src) x f ≡ (ok (chunk (b ∷ src) x + n), z, g)
  unfolding write_loop
  write_step k b src x y z f g n seek run =
      ap
        (after_write (chunk (b ∷ src) x)
          (write_loop ops junk k (drop (chunk (b ∷ src) x) (b ∷ src))))
        seek
      ∙ ap (add_bytes (chunk (b ∷ src) x)) run

  write_loop-IsEmpty :
      (k : ℕ) (src : List ℕ) (x : File) (f : Fat D)
      → IsEmpty x
      → length src ≤ k
      → (y : File) × (write_loop ops junk k src x f ≡ (ok (length src), y, f))
        × IsEmpty y
        × (y.modified ≡ x.modified)
  unfolding write_loop
  write_loop-IsEmpty k [] x f v le = (x, refl, v, refl)
  write_loop-IsEmpty zero (b ∷ src) x f v le = absurd (omega arith)
  write_loop-IsEmpty (suc k) (b ∷ src) x f v le =
      let c = chunk (b ∷ src) x in
      let y = filled (b ∷ src) x in
      let w : IsEmpty y = record { opened = v.opened; size = v.size; offset = v.offset } in
      let (z, run, e, m) =
        write_loop-IsEmpty k (drop c (b ∷ src)) (set_empty y) f
          (record { opened = v.opened; size = v.size; offset = refl })
          (omega (arith, length-drop c (b ∷ src))) in
      (
        z,
        write_step k b src x (set_empty y) z f f (length (drop c (b ∷ src)))
              (seek-IsEmpty c y f w (omega arith)) run
            ∙ ap (λ (n : ℕ). (ok n, z, f)) (omega (arith, length-drop c (b ∷ src))),
        e,
        m,
      )

  -- To a file of size 0 that is open for writing, with its position at 0, `fat_file_write` of any
  -- bytes reports that all of them are written and gives no error; but the size and the position
  -- stay 0, and nothing on the volume has changed: the bytes are lost.
  pub file_write-lost :
      (src : List ℕ) (x : File) (f : Fat D)
      → IsEmpty x
      → x.can_write ≡ true
      → (y : File) × (file_write ops junk src x f ≡ (ok (length src), y, f)) × IsEmpty y
  unfolding file_write
  file_write-lost src x f v can =
      let (y, run, e, _) =
        write_loop-IsEmpty (length src) src (record x { modified = true; accessed = true }) f
          (record { opened = v.opened; size = v.size; offset = v.offset }) (omega arith) in
      let same : ltb y.size y.offset ≡ false = not_below (omega (arith, e.size, e.offset)) in
      (
        y,
        ap (λ (m : F D ℕ). m x f) (guard_passes v.opened _ _ ∙ guard_passes can _ _)
            ∙ rw (run, same) refl,
        e,
      )
