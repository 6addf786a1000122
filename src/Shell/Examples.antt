-- ===== src/Shell/Examples.antt =====
-- The theorems on src/kernel/shell.c and src/kernel/commands.c at concrete inputs, with an empty disk.
use beaner_os.Tty
use beaner_os.Commands.{
  Sys, root_dir, name_of, parent_of, build_path, up_from, trim_end, before_newline, skip_blanks,
}
use beaner_os.Commands.Run.{cd}
use beaner_os.Commands.Place.{InPlace, cd-InPlace}
use beaner_os.Shell.{
  process_command, on_tty, shell_loop, parse_redirection, parse_append, trim_whitespace, trim_from,
  parse_out,
}
use beaner_os.Shell.Typing.{Prompted, shell_loop-command}
use beaner_os.Libc.Strings.{strstr, stands_at, strchr}
use beaner_os.Fat.State.{DiskOps, Fat}
use beaner_os.Fat.Time.{default_timestamp}
use beaner_os.Fat.Chain.{Junk}
use beaner_os.Fat.Dir.{Dir}
use beaner_os.Fat.File.{File}
use beaner_os.Base.{ℕ, ◌≡◌, refl, arith, List, [], replicate, true, false, codes, none, some}

abbrev zeros : List ℕ
zeros = replicate 512 0

abbrev blank : DiskOps (Unit {0})
blank = record { read = λ d s b. (true, zeros, d); write = λ d s b. (true, d) }

abbrev dir : Dir
dir = record {
  opened = false;
  sclust = 0;
  clust = 0;
  sect = 0;
  idx = 0;
  g_buf = zeros;
  g_len = 0;
  g_crc = 0;
}

abbrev file : File
file = record {
  opened = false;
  dir_sect = 0;
  dir_idx = 0;
  sclust = 0;
  clust = 0;
  sect = 0;
  size = 0;
  offset = 0;
  buf = zeros;
  can_write = false;
  can_read = false;
  accessed = false;
  modified = false;
  dirty = false;
}

abbrev volume : Fat (Unit {0})
volume = record {
  disk = tt;
  geo = record {
    clust_shift = 0;
    clust_msk = 0;
    clust_cnt = 8;
    info_sect = 1;
    fat_sect0 = 2;
    fat_sect1 = 3;
    data_sect = 4;
    root_clust = 2;
  };
  last_used = 3;
  free_cnt = 4;
  sect = 0;
  buf = zeros;
  buf_dirty = false;
  info_dirty = false;
}

abbrev screen : Tty.Tty
screen = record { row = 0; column = 2; color = 7; buffer = λ _. 0; serial = []; outs = [] }

abbrev sys : Sys (Unit {0})
sys = record { tty = screen; cwd = codes "/root/a/b"; dir = dir; file = file; fat = volume }

parent_of_test :
    (parent_of (codes "/root/a/b") ≡ codes "/root/a")
    × (parent_of (codes "/root/a") ≡ root_dir)
    × (name_of (codes " a b \n") ≡ codes "a b")
    × (build_path (codes "/root") (codes "x") ≡ some (codes "/root/x"))
unfolding parent_of up_from name_of trim_end before_newline skip_blanks build_path
parent_of_test = (refl, refl, refl, refl)

parse_redirection_test :
    (parse_redirection (codes "echo hi  >> x.txt ") ≡ record {
      actual_cmd = codes "echo hi";
      output_file = some (codes "x.txt");
      is_append = true;
    })
    × (parse_redirection (codes " ls\t")
        ≡ record { actual_cmd = codes "ls"; output_file = none; is_append = false })
unfolding parse_redirection parse_append strstr stands_at trim_whitespace trim_end trim_from
    skip_blanks parse_out strchr
parse_redirection_test = (refl, refl)

abbrev junk : Junk
junk = record { flags = 0; clust = 0 }

-- Up to `/root/a`.
cd-InPlace_example :
    InPlace
      (codes "/root/a/b")
      (name_of (codes ".."))
      (cd blank junk default_timestamp (codes "..") sys)
cd-InPlace_example =
    cd-InPlace blank junk default_timestamp (codes "..") sys
      (record { below_root = refl; fits = omega arith })

-- The line `pwd`.
shell_loop-command_example :
    Prompted
      (process_command blank junk default_timestamp
        (codes "pwd")
        (on_tty (Tty.write (codes "pwd\n")) sys))
      (shell_loop blank junk default_timestamp (codes "pwd\n") (record { line = []; sys = sys }))
shell_loop-command_example =
    shell_loop-command blank junk default_timestamp (codes "pwd") [] sys
      (
        omega arith,
        omega arith,
        omega arith,
        (omega arith, omega arith, omega arith, (omega arith, omega arith, omega arith, tt)),
      )
      (omega arith)
