-- ===== src/Commands/Run.antt =====
-- The commands of src/kernel/commands.c that use the volume.
use beaner_os.Commands.{
  Sys, Ran, done, outside, out_of_fuel, vol_name, root_dir, name_of, build_path, parent_of, flags,
  say, with_dir, with_file,
}
use beaner_os.Tty
use beaner_os.Libc.Printf.{word, string}
use beaner_os.Fat.State.{DiskOps, Res, Err, ok, err, stuck}
use beaner_os.Fat.Time.{Timestamp}
use beaner_os.Fat.Chain.{Junk}
use beaner_os.Fat.File.{file_read, file_write, file_close}
use beaner_os.Fat.Dir.{entry_count, has_attr, same_bytes}
use beaner_os.Fat.Path.{DirInfo, dir_open, dir_read, user_next}
use beaner_os.Fat.Add.{OpenFlags, file_open, dir_create}
use beaner_os.Fat.Report.{get_error}
use beaner_os.Base.{
  ℕ, List, [], ◌∷◌, codes, ◌==◌, if◌then◌else◌, length, get_or, take, zero, suc, ◌+◌, Bool, true,
  false, not, Option, none, some, ◌++◌,
}

-- The volume was left in a loop that does not end.
abbrev pub is_stuck : Err → Bool
is_stuck stuck = true
is_stuck _ = false

-- `if (err) { ... }`, and else what follows.
abbrev pub on_result :
    {D A : Type 0} → Res A × Sys D → (Err → Sys D → Ran D) → (A → Sys D → Ran D) → Ran D
on_result (err e, t) failed good = if is_stuck e then out_of_fuel else failed e t
on_result (ok a, t) failed good = good a t

-- What a read gives: an error, no bytes, or some.
abbrev pub on_read :
    {D : Type 0}
    → (List ℕ × Res (Unit {0})) × Sys D
    → (Err → Sys D → Ran D)
    → (Sys D → Ran D)
    → (List ℕ → Sys D → Ran D)
    → Ran D
on_read ((bytes, err e), t) failed ends more = if is_stuck e then out_of_fuel else failed e t
on_read (([], ok _), t) failed ends more = ends t
on_read ((c ∷ bytes, ok _), t) failed ends more = more (c ∷ bytes) t

module _ {D : Type 0} (ops : DiskOps D) (junk : Junk) (now : Timestamp) where
  abbrev pub open_file : OpenFlags → (str : List ℕ) → Sys D → Res (Unit {0}) × Sys D
  open_file how str s =
      let (r, x, d, f) = file_open ops junk now how vol_name str s.file s.dir s.fat in
      (r, record s { file = x; dir = d; fat = f })

  abbrev pub open_dir : (str : List ℕ) → Sys D → Res (Unit {0}) × Sys D
  open_dir str = with_dir (dir_open ops vol_name str)

  -- The calls whose results the commands do not look at.
  abbrev pub close : Sys D → Sys D
  close s = let (r, x, f) = file_close ops junk now s.file s.fat in record s { file = x; fat = f }

  abbrev pub write_text : List ℕ → Sys D → Sys D
  write_text text s =
      let (r, x, f) = file_write ops junk text s.file s.fat in record s { file = x; fat = f }

  abbrev pub next_entry : Sys D → Sys D
  next_entry s = let (r, x, f) = user_next ops s.dir s.fat in record s { dir = x; fat = f }

  unfoldable pub show_info : DirInfo → Sys D → Sys D
  show_info info s =
      let name = string (some info.name) in
      let len = word (length info.name) in
      if has_attr 16 info.attr
      then say (codes "  [DIR]  %.*s\n") (len ∷ name ∷ []) s
      else say (codes "  [FILE] %.*s (%u bytes)\n") (len ∷ name ∷ word info.size ∷ []) s

  unfoldable pub ls_loop : (fuel : ℕ) → Sys D → Ran D
  ls_loop zero s = out_of_fuel
  ls_loop (suc k) s =
      on_result (with_dir (dir_read ops) s) (λ e. done)
        (λ info t. ls_loop k (next_entry (show_info info t)))

  unfoldable pub ls : Sys D → Ran D
  ls s =
      on_result (open_dir s.cwd s) (λ e t. done (say (codes "Failed to open directory\n") [] t))
        (λ _ t. ls_loop (entry_count t.fat.geo) (say (codes "Directory contents:\n") [] t))

  unfoldable pub cat_loop : (fuel : ℕ) → Sys D → Ran D
  cat_loop zero s = out_of_fuel
  cat_loop (suc k) s =
      on_read (with_file (file_read ops junk 512) s)
        (λ e t. done (say (codes "cat: read error: %s\n") (string (some (get_error e)) ∷ []) t))
        done (λ bytes t. cat_loop k (record t { tty = Tty.write bytes t.tty }))

  abbrev pub and_close : Ran D → Ran D
  and_close (done t) = done (close t)
  and_close outside = outside
  and_close out_of_fuel = out_of_fuel

  -- cat of a file that is open. A round reads a byte at least.
  unfoldable pub cat_open : (name : List ℕ) → Sys D → Ran D
  cat_open name s =
      let args = word (length name) ∷ string (some name) ∷ [] in
      if s.file.size == 0
      then done (close s)
      else if s.file.sclust == 0
      then done (close (say (codes "cat: '%.*s': invalid file cluster\n") args s))
      else and_close (cat_loop (s.file.size + 1) s)

  -- A name that is refused is printed with its length.
  abbrev pub refused : (format name : List ℕ) → Err → Sys D → Ran D
  refused format name e t =
      done
        (say format (word (length name) ∷ string (some name) ∷ string (some (get_error e)) ∷ []) t)

  -- A message with a text.
  abbrev pub told : (format text : List ℕ) → Sys D → Ran D
  told format text t = done (say format (string (some text) ∷ []) t)

  -- The path of a name, if it fits.
  abbrev pub at_path : Option (List ℕ) → (List ℕ → Ran D) → Ran D
  at_path none next = outside
  at_path (some str) next = next str

  unfoldable pub cat : (filename : List ℕ) → Sys D → Ran D
  cat filename s =
      let name = name_of filename in
      if length name == 0
      then done (say (codes "Usage: cat <file>\n") [] s)
      else at_path (build_path s.cwd name) (λ str.
        on_result (open_file (flags false true false false false) str s)
          (refused (codes "cat: cannot open '%.*s': %s\n") name) (λ _. cat_open name))

  -- echo into a file.
  unfoldable pub echo_to : (text output_file : List ℕ) (is_append : Bool) → Sys D → Ran D
  echo_to text output_file is_append s = at_path (build_path s.cwd (take 249 output_file)) (λ str.
      on_result (open_file (flags true false is_append (not is_append) true) str s)
        (λ e. told (codes "Failed to open file: %s\n") output_file)
        (λ _ t. done (close (write_text (10 ∷ []) (write_text text t)))))

  unfoldable pub echo : (text : List ℕ) → Option (List ℕ) → (is_append : Bool) → Sys D → Ran D
  echo text none is_append s = told (codes "%s\n") text s
  echo text (some []) is_append s = done (say (codes "Error: No output file specified\n") [] s)
  echo text (some (c ∷ name)) is_append s = echo_to text (c ∷ name) is_append s

  unfoldable pub touch : (filename : List ℕ) → Sys D → Ran D
  touch filename s = at_path (build_path s.cwd (take 249 filename)) (λ str.
      on_result (open_file (flags true false false false true) str s)
        (λ e. told (codes "Failed to create: %s\n") filename)
        (λ _ t. told (codes "Created: %s\n") filename (close t)))

  unfoldable pub mkdir : (dirname : List ℕ) → Sys D → Ran D
  mkdir dirname s = at_path (build_path s.cwd (take 249 dirname)) (λ str.
      on_result (with_dir (dir_create ops junk now vol_name str) s)
        (λ e. told (codes "Failed to create directory: %s\n") dirname)
        (λ _. told (codes "Created directory: %s\n") dirname))

  -- `strncpy(g_cwd, new_path, sizeof(g_cwd) - 1)`, once the directory is open.
  unfoldable pub enter : (name new_path : List ℕ) → Sys D → Ran D
  enter name new_path s =
      on_result (open_dir new_path s) (refused (codes "cd: cannot access '%.*s': %s\n") name)
        (λ _ t. done (record t { cwd = take 255 new_path }))

  -- cd to a name that is not empty.
  unfoldable pub cd_to : (name : List ℕ) → Sys D → Ran D
  cd_to name s =
      if same_bytes name (codes ".")
      then done s
      else if same_bytes name (codes "..")
      then done (record s { cwd = parent_of s.cwd })
      else if get_or name 0 0 == b'/'
      then enter name (root_dir ++ name) s
      else at_path (build_path s.cwd name) (λ str. enter name str s)

  -- A name that is empty stands for `/`.
  unfoldable pub cd : (dirname : List ℕ) → Sys D → Ran D
  cd dirname = let name = name_of dirname in cd_to (if length name == 0 then codes "/" else name)
