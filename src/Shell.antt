-- ===== src/Shell.antt =====
-- The shell of src/kernel/shell.c: redirection, the commands, and the line that is typed.
pub mod Typing
mod Examples
use beaner_os.Tty
use beaner_os.Libc.Strings.{strcmp, strncmp, strchr, strstr}
use beaner_os.Commands.{Sys, Ran, done, outside, out_of_fuel, say, trim_end, skip_blanks, pwd}
use beaner_os.Commands.Run.{ls, cat, echo, touch, mkdir, cd}
use beaner_os.Fat.State.{DiskOps}
use beaner_os.Fat.Chain.{Junk}
use beaner_os.Fat.Time.{Timestamp}
use beaner_os.Libc.Printf.{string}
use beaner_os.Base.{
  ℕ, ℤ, pos, List, codes, ◌==◌, if◌then◌else◌, length, take, drop, zero, suc, ◌-◌, Bool, true,
  false, ◌||◌, Option, none, some, [], ◌∷◌, negsuc, ltb, ◌&&◌, ◌++◌,
}

-- `c` is one of the characters that trim_whitespace takes from the end.
abbrev pub is_space : ℕ → Bool
is_space c = (c == b' ') || (c == 9) || (c == 10)

-- The first character behind the blanks stays, whatever it is.
unfoldable pub trim_from : List ℕ → List ℕ
trim_from [] = []
trim_from (c ∷ s) = c ∷ trim_end is_space s

unfoldable pub trim_whitespace : List ℕ → List ℕ
trim_whitespace str = trim_from (skip_blanks str)

-- `actual_cmd`, `output_file` (NULL is `none`) and `is_append`.
pub record Redirection : Type 0 where
  pub actual_cmd : List ℕ
  pub output_file : Option (List ℕ)
  pub is_append : Bool

-- The part of `s` before `rest`, a part of `s` up to its end.
abbrev pub before : (s rest : List ℕ) → List ℕ
before s rest = take (length s - length rest) s

-- `file_end` is what is taken from the end of the name of the file.
abbrev pub redirected :
    (file_end : ℕ → Bool) (is_append : Bool) (cmd at name : List ℕ) → Redirection
redirected file_end is_append cmd at name = record {
  actual_cmd = trim_whitespace (before cmd at);
  output_file = some (trim_end file_end (trim_whitespace name));
  is_append = is_append;
}

-- Where there is no `>>`.
unfoldable pub parse_out : (cmd : List ℕ) → Option (List ℕ) → Redirection
parse_out cmd none = record {
  actual_cmd = trim_whitespace cmd;
  output_file = none;
  is_append = false;
}
parse_out cmd (some out_pos) =
    redirected (λ c. (c == b' ') || (c == 10) || (c == b'>')) false cmd out_pos (drop 1 out_pos)

unfoldable pub parse_append : (cmd : List ℕ) → Option (List ℕ) → Redirection
parse_append cmd none = parse_out cmd (strchr cmd b'>')
parse_append cmd (some append_pos) =
    redirected (λ c. (c == b' ') || (c == 10)) true cmd append_pos (drop 2 append_pos)

unfoldable pub parse_redirection : (cmd : List ℕ) → Redirection
parse_redirection cmd = parse_append cmd (strstr cmd (codes ">>"))

abbrev pub is_zero : ℤ → Bool
is_zero (pos zero) = true
is_zero (pos (suc n)) = false
is_zero (negsuc n) = false

-- `strcmp(cmd, name) == 0`, and `strncmp(cmd, name, strlen(name)) == 0`.
abbrev pub is_cmd : (cmd name : List ℕ) → Bool
is_cmd cmd name = is_zero (strcmp cmd name)

abbrev pub starts : (cmd name : List ℕ) → Bool
starts cmd name = is_zero (strncmp cmd name (length name))

abbrev pub help_text : List (List ℕ)
help_text =
    codes "Available commands:\n"
    ∷ codes "  ls               - List files\n"
    ∷ codes "  cat <file>       - Display file contents\n"
    ∷ codes "  echo <text>      - Print text or write to file\n"
    ∷ codes "  touch <file>     - Create empty file\n"
    ∷ codes "  mkdir <dir>      - Create directory\n"
    ∷ codes "  cd <dir>         - Change directory\n"
    ∷ codes "  pwd              - Print working directory\n"
    ∷ codes "  help             - Show this help\n"
    ∷ codes "  clear            - Clear the screen\n"
    ∷ []

unfoldable pub say_all : {D : Type 0} → List (List ℕ) → Sys D → Sys D
say_all [] s = s
say_all (line ∷ rest) s = say_all rest (say line [] s)

module _ {D : Type 0} (ops : DiskOps D) (junk : Junk) (now : Timestamp) where
  abbrev pub unknown : (cmd : List ℕ) → Sys D → Ran D
  unknown cmd s = done (
      say (codes "Type 'help' for available commands\n") []
        (say (codes "Unknown command: %s\n") (string (some cmd) ∷ []) s))

  unfoldable pub dispatch : Redirection → Sys D → Ran D
  dispatch r s =
      let cmd = r.actual_cmd in
      if is_cmd cmd (codes "ls")
      then ls ops junk now s
      else if is_cmd cmd (codes "help")
      then done (say_all help_text s)
      else if is_cmd cmd (codes "clear")
      then done (record s { tty = Tty.clear s.tty })
      else if is_cmd cmd (codes "pwd")
      then done (pwd s)
      else if starts cmd (codes "echo ")
      then echo ops junk now (drop 5 cmd) r.output_file r.is_append s
      else if starts cmd (codes "touch ")
      then touch ops junk now (drop 6 cmd) s
      else if starts cmd (codes "mkdir ")
      then mkdir ops junk now (drop 6 cmd) s
      else if starts cmd (codes "cd ")
      then cd ops junk now (drop 3 cmd) s
      else if is_cmd cmd (codes "cd")
      then cd ops junk now (codes "/") s
      else if starts cmd (codes "cat ")
      then cat ops junk now (drop 4 cmd) s
      else unknown cmd s

  -- The copy of the line has 255 characters at most.
  unfoldable pub process_command : (cmd : List ℕ) → Sys D → Ran D
  process_command [] s = done s
  process_command (c ∷ cmd) s = dispatch (parse_redirection (take 255 (c ∷ cmd))) s

-- `cmdbuf` up to `cmdlen`, and the rest of the system.
pub record Shell (D : Type 0) : Type 0 where
  pub line : List ℕ
  pub sys : Sys D

module _ {D : Type 0} where
  -- `terminal_writestring`, `terminal_putchar`.
  abbrev pub on_tty : (Tty.Tty → Tty.Tty) → Sys D → Sys D
  on_tty g s = record s { tty = g s.tty }

  -- The shell behind a command; `none` where the command does not come back.
  unfoldable pub prompt : Ran D → Option (Shell D)
  prompt (done s) = some (record { line = []; sys = on_tty (Tty.write (codes "> ")) s })
  prompt outside = none
  prompt out_of_fuel = none

  unfoldable pub start : Sys D → Shell D
  start s =
      let welcome = Tty.writestring_color (codes "Welcome to Beaner OS!\n") 11 0 in
      let hint = Tty.write (codes "Type 'help' for available commands\n> ") in
      record { line = []; sys = on_tty hint (on_tty welcome s) }

  unfoldable pub erase : Shell D → Shell D
  erase x =
      if ltb 2 x.sys.tty.column && ltb 0 (length x.line)
      then record { line = take (length x.line - 1) x.line; sys = on_tty Tty.backspace x.sys }
      else x

  unfoldable pub type_char : (c : ℕ) → Shell D → Shell D
  type_char c x =
      if ltb (length x.line) 255
      then record { line = x.line ++ (c ∷ []); sys = on_tty (Tty.putchar c) x.sys }
      else x

module _ {D : Type 0} (ops : DiskOps D) (junk : Junk) (now : Timestamp) where
  -- A character of keyboard_getchar.
  unfoldable pub key : (c : ℕ) → Shell D → Option (Shell D)
  key c x =
      if c == 0
      then some x
      else if c == 8
      then some (erase x)
      else if c == 10
      then prompt (process_command ops junk now x.line (on_tty (Tty.putchar 10) x.sys))
      else some (type_char c x)

  -- The characters that are typed, in their order.
  unfoldable pub shell_loop : List ℕ → Shell D → Option (Shell D)
  shell_loop [] x = some x
  shell_loop (c ∷ cs) x = elim (key c x) [ none ↦ none | some y ↦ shell_loop cs y ]
