-- ===== src/Shell/Typing.antt =====
-- What is typed in src/kernel/shell.c, and the command that is run.
use mathlib.Core.Path.{subst}
use beaner_os.Tty
use beaner_os.Commands.{Sys, Ran, done, outside, out_of_fuel}
use beaner_os.Shell.{Shell, key, type_char, prompt, shell_loop, process_command, on_tty}
use beaner_os.Fat.State.{DiskOps}
use beaner_os.Fat.Chain.{Junk}
use beaner_os.Fat.Time.{Timestamp}
use beaner_os.Base.{
  ℕ, List, lt→ltb, ==-false_of_ne, length, ◌+◌, ◌≤◌, ◌<◌, ◌≡◌, refl, ap, ◌≢◌, some, [], ◌∷◌, ◌++◌,
  length-append, ◌∙◌, sym, codes, Option, none, arith, append_nil, snoc-append,
}

-- Keys that only put their character into the line.
abbrev pub IsPlain : List ℕ → Type 0
IsPlain [] = Unit
IsPlain (c ∷ cs) = (c ≢ 0) × (c ≢ 8) × (c ≢ 10) × IsPlain cs

-- No key is left.
last_key :
    {A : Type 0} (o : Option A) → (elim o as (λ _. Option A) [ none ↦ none | some y ↦ some y ]) ≡ o
last_key none = refl
last_key (some y) = refl

-- Behind a command that comes back, a line with nothing in it, behind `> ` on the screen; no shell
-- behind one that does not.
pub data Prompted {D : Type 0} : Ran D → Option (Shell D) → Type 0 where
  behind :
      (s : Sys D)
      → Prompted
          (done s)
          (some (record { line = []; sys = record s { tty = Tty.write (codes "> ") s.tty } }))
  lost : Prompted outside none
  hung : Prompted out_of_fuel none

prompt-Prompted : {D : Type 0} (r : Ran D) → Prompted r (prompt r)
unfolding prompt
prompt-Prompted (done s) = behind s
prompt-Prompted outside = lost
prompt-Prompted out_of_fuel = hung

module _ {D : Type 0} (ops : DiskOps D) (junk : Junk) (now : Timestamp) where
  key-type_char :
      (c : ℕ) (x : Shell D)
      → c ≢ 0
      → c ≢ 8
      → c ≢ 10
      → length x.line < 255
      → key ops junk now c x
        ≡ some (record { line = x.line ++ (c ∷ []); sys = on_tty (Tty.putchar c) x.sys })
  unfolding key type_char
  key-type_char c x p q r room =
      rw
        (
          ==-false_of_ne c 0 p,
          ==-false_of_ne c 8 q,
          ==-false_of_ne c 10 r,
          lt→ltb (length x.line) 255 room,
        )
        refl

  shell_loop-cons :
      (c : ℕ) (cs : List ℕ) (x y : Shell D)
      → key ops junk now c x ≡ some y
      → shell_loop ops junk now (c ∷ cs) x ≡ shell_loop ops junk now cs y
  unfolding shell_loop
  shell_loop-cons c cs x y e = cc

  shell_loop-enter :
      (x : Shell D)
      → shell_loop ops junk now (10 ∷ []) x
        ≡ prompt (process_command ops junk now x.line (on_tty (Tty.putchar 10) x.sys))
  unfolding shell_loop key
  shell_loop-enter x =
      last_key (prompt (process_command ops junk now x.line (on_tty (Tty.putchar 10) x.sys)))

  pub shell_loop-prompt :
      (cs line : List ℕ) (s : Sys D)
      → IsPlain cs
      → length line + length cs ≤ 255
      → shell_loop ops junk now (cs ++ (10 ∷ [])) (record { line = line; sys = s })
        ≡ prompt
            (process_command ops junk now (line ++ cs) (on_tty (Tty.write (cs ++ (10 ∷ []))) s))
  unfolding Tty.write
  shell_loop-prompt [] line s plain room =
      rw (append_nil line) (shell_loop-enter (record { line = line; sys = s }))
  shell_loop-prompt (c ∷ cs) line s (p, q, r, plain) room =
      let y : Shell D = record { line = line ++ (c ∷ []); sys = on_tty (Tty.putchar c) s } in
      shell_loop-cons c (cs ++ (10 ∷ [])) (record { line = line; sys = s }) y
        (key-type_char c (record { line = line; sys = s }) p q r (omega arith))
      ∙ shell_loop-prompt cs y.line y.sys plain (omega (arith, length-append line (c ∷ [])))
      ∙ ap
          (λ l.
            prompt (process_command ops junk now l (on_tty (Tty.write (cs ++ (10 ∷ []))) y.sys)))
          (snoc-append line c cs)

  -- Keys other than NUL, backspace and newline that, with the line so far, are at most 255, are
  -- put on the screen as they are typed; the newline behind them runs `process_command` on the
  -- whole line. Where that comes back, `> ` is put on the screen and the next line is empty; where
  -- it does not, neither does the shell.
  pub shell_loop-command :
      (cs line : List ℕ) (s : Sys D)
      → IsPlain cs
      → length line + length cs ≤ 255
      → Prompted
          (process_command ops junk now (line ++ cs) (on_tty (Tty.write (cs ++ (10 ∷ []))) s))
          (shell_loop ops junk now (cs ++ (10 ∷ [])) (record { line = line; sys = s }))
  shell_loop-command cs line s plain room =
      subst (Prompted _) (sym (shell_loop-prompt cs line s plain room)) (prompt-Prompted _)
