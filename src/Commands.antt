-- ===== src/Commands.antt =====
-- The commands of src/kernel/commands.c on the terminal and the volume that is mounted as `root`.
-- A C string is the list of its characters.
pub mod Run
pub mod Place
use beaner_os.Tty
use beaner_os.Libc.Printf.{Arg, string, Outcome, printed, failed, printf}
use beaner_os.Fat.State.{Fat, Res}
use beaner_os.Fat.File.{File}
use beaner_os.Fat.Dir.{Dir}
use beaner_os.Fat.Add.{OpenFlags}
use beaner_os.Base.{
  ℕ, List, [], ◌∷◌, codes, ltb, leb, ◌==◌, if◌then◌else◌, length, get_or, take, drop, zero, suc,
  ◌-◌, Bool, not, ◌&&◌, ◌||◌, Option, none, some, ◌++◌,
}

-- The terminal, `g_cwd` and the volume `g_fs`. `dir` and `file` are the locals of the commands,
-- which hold what they held before; `dir` has the global buffer of fat.c too.
pub record Sys (D : Type 0) : Type 0 where
  pub tty : Tty.Tty
  pub cwd : List ℕ
  pub dir : Dir
  pub file : File
  pub fat : Fat D

-- What becomes of a command: it returns; it writes behind the end of an array of 256 bytes; or its
-- loop goes on for longer than the fuel.
pub data Ran (D : Type 0) : Type 0 where
  done : Sys D → Ran D
  outside out_of_fuel : Ran D

-- The name that kmain mounts the volume by, and the directory at first.
abbrev pub vol_name : List ℕ
vol_name = codes "root"

abbrev pub root_dir : List ℕ
root_dir = codes "/root"

-- `VOLUME_PREFIX_LEN`
abbrev pub prefix_len : ℕ
prefix_len = 5

abbrev pub is_blank : ℕ → Bool
is_blank c = (c == b' ') || (c == 9)

-- `while (*filename == ' ' || *filename == '\t') filename++;`
unfoldable pub skip_blanks : List ℕ → List ℕ
skip_blanks [] = []
skip_blanks (c ∷ s) = let rest = skip_blanks s in if is_blank c then rest else c ∷ s

-- The characters before the first newline.
unfoldable pub before_newline : List ℕ → List ℕ
before_newline [] = []
before_newline (c ∷ s) = let rest = before_newline s in if c == 10 then [] else c ∷ rest

-- Without the characters at the end that `drops` holds of.
unfoldable pub trim_end : (drops : ℕ → Bool) → List ℕ → List ℕ
trim_end drops [] = []
trim_end drops (c ∷ s) =
    let rest = trim_end drops s in if (length rest == 0) && drops c then [] else c ∷ rest

-- The `name_len` characters that cat and cd take from their argument.
unfoldable pub name_of : List ℕ → List ℕ
name_of filename = trim_end is_blank (before_newline (take 249 (skip_blanks filename)))

-- The path in `dest`; `none` where it and the NUL do not fit into the 256 bytes.
unfoldable pub build_path : (cwd filename : List ℕ) → Option (List ℕ)
build_path cwd filename =
    let slash = ltb 0 (length cwd) && not (get_or cwd (length cwd - 1) 0 == b'/') in
    let dest = (if slash then cwd ++ (b'/' ∷ []) else cwd) ++ filename in
    if ltb (length dest) 256 then some dest else none

-- `while (i > VOLUME_PREFIX_LEN && g_cwd[i] != '/') i--;`
unfoldable pub up_from : (i : ℕ) → (cwd : List ℕ) → ℕ
up_from zero cwd = 0
up_from (suc i) cwd =
    let rest = up_from i cwd in
    if ltb prefix_len (suc i) && not (get_or cwd (suc i) 0 == b'/') then rest else suc i

-- `cd ..`
unfoldable pub parent_of : (cwd : List ℕ) → List ℕ
parent_of cwd =
    let last = length cwd - 1 in
    let i = up_from (if get_or cwd last 0 == b'/' then last - 1 else last) cwd in
    if leb (length cwd) prefix_len then cwd else if leb i prefix_len then root_dir else take i cwd

abbrev pub shown_on : Outcome → Tty.Tty → Tty.Tty
shown_on (printed out) t = Tty.write out t
shown_on (failed out) t = Tty.write out t
shown_on _ t = t

abbrev pub flags : (write read append trunc create : Bool) → OpenFlags
flags write read append trunc create = record {
  write = write;
  read = read;
  append = append;
  trunc = trunc;
  create = create;
}

module _ {D : Type 0} where
  -- `printf`
  unfoldable pub say : (format : List ℕ) → List Arg → Sys D → Sys D
  say format args s = record s { tty = shown_on (printf format args) s.tty }

  -- A call of a function on a directory, or on a file.
  abbrev pub with_dir : {A : Type 0} → (Dir → Fat D → Res A × Dir × Fat D) → Sys D → Res A × Sys D
  with_dir m s = let (r, x, f) = m s.dir s.fat in (r, record s { dir = x; fat = f })

  abbrev pub with_file : {A : Type 0} → (File → Fat D → A × File × Fat D) → Sys D → A × Sys D
  with_file m s = let (r, x, f) = m s.file s.fat in (r, record s { file = x; fat = f })

  unfoldable pub pwd : Sys D → Sys D
  pwd s =
      if ltb prefix_len (length s.cwd)
      then say (codes "%s\n") (string (some (drop prefix_len s.cwd)) ∷ []) s
      else say (codes "/\n") [] s
