-- ===== src/Fat/State.antt =====
-- The state of a mounted volume (`Fat` and `DiskOps` of src/include/fat.h), the error codes, and the
-- monad in which the functions of src/fs/fat.c are written.
use beaner_os.Base.{ℕ, ◌+◌, ◌-◌, ◌%◌, ◌^◌, ◌≡◌, ◌≢◌, Bool, true, length}
use beaner_os.Fat.Bytes.{Buf}

-- The `FAT_ERR_` codes but `FAT_ERR_NONE`. `raw_flags n` is the value that `stretch_chain` returns
-- where it returns its local `flags` in place of `err`. `stuck` is the model's own: the fuel
-- ran out, or C leaves open what happens.
pub data Err : Type 0 where
  nofat broken io param path eof denied full : Err
  raw_flags : ℕ → Err
  stuck : Err

-- The callbacks of a disk, over the device's own state `D`. `read d s b` fills the buffer that held
-- `b` from sector `s`: success, the buffer, the device afterwards.
pub record DiskOps (D : Type 0) : Type 0 where
  pub read : D → ℕ → Buf → Bool × Buf × D
  pub write : D → ℕ → Buf → Bool × D

-- What a caller of `DiskOps` relies on. `sector d s` is what the device holds in sector `s`.
pub record IsDevice {D : Type 0} (ops : DiskOps D) (sector : D → ℕ → Buf) : Type 0 where
  pub size : (d : D) (s : ℕ) → length (sector d s) ≡ 512
  pub read_ok : (d : D) (s : ℕ) (b : Buf) → (ops.read d s b).0 ≡ true
  pub read_buf : (d : D) (s : ℕ) (b : Buf) → (ops.read d s b).1 ≡ sector d s
  pub read_same : (d : D) (s : ℕ) (b : Buf) (t : ℕ) → sector (ops.read d s b).2 t ≡ sector d t
  pub write_ok : (d : D) (s : ℕ) (b : Buf) → (ops.write d s b).0 ≡ true
  pub write_self : (d : D) (s : ℕ) (b : Buf) → length b ≡ 512 → sector (ops.write d s b).1 s ≡ b
  pub write_ne :
      (d : D) (s : ℕ) (b : Buf) (t : ℕ) → s ≢ t → sector (ops.write d s b).1 t ≡ sector d t

-- The fields of `Fat` that `fat_mount` sets and nothing changes.
pub record Geometry : Type 0 where
  pub clust_shift : ℕ
  pub clust_msk : ℕ
  pub clust_cnt : ℕ
  pub info_sect : ℕ
  pub fat_sect0 : ℕ
  pub fat_sect1 : ℕ
  pub data_sect : ℕ
  pub root_clust : ℕ

-- `Fat`, with the device behind its `ops`. The bits of its `flags` are two fields.
pub record Fat (D : Type 0) : Type 0 where
  pub disk : D
  pub geo : Geometry
  pub last_used : ℕ
  pub free_cnt : ℕ
  pub sect : ℕ
  pub buf : Buf
  pub buf_dirty : Bool
  pub info_dirty : Bool

pub data Res (A : Type 0) : Type 0 where
  ok : A → Res A
  err : Err → Res A

-- A function that returns an error code and updates `*fat`, also where it fails.
abbrev pub M : Type 0 → Type 0 → Type 0
M D A = Fat D → Res A × Fat D

module _ {D : Type 0} where
  abbrev pub pure : {A : Type 0} → A → M D A
  pure a f = (ok a, f)

  abbrev pub throw : {A : Type 0} → Err → M D A
  throw e f = (err e, f)

  -- `if (err) return err;`
  abbrev pub and_then : {A B : Type 0} → Res A × Fat D → (A → M D B) → Res B × Fat D
  and_then (ok a, f) k = k a f
  and_then (err e, f) k = (err e, f)

  infixl 5 ◌>>=◌ ◌>>◌
  abbrev pub ◌>>=◌ : {A B : Type 0} → M D A → (A → M D B) → M D B
  m >>= k = λ f. and_then (m f) k

  abbrev pub ◌>>◌ : {B : Type 0} → M D (Unit {0}) → M D B → M D B
  m >> k = m >>= λ _. k

  abbrev pub get : M D (Fat D)
  get f = (ok f, f)

  abbrev pub modify : (Fat D → Fat D) → M D (Unit {0})
  modify g f = (ok tt, g f)

-- uint32_t arithmetic.
abbrev pub add32 : ℕ → ℕ → ℕ
add32 a b = (a + b) % 2 ^ 32

abbrev pub sub32 : ℕ → ℕ → ℕ
sub32 a b = (a + 2 ^ 32 - b % 2 ^ 32) % 2 ^ 32
