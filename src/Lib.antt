-- ===== src/Lib.antt =====
-- beanerOS is a small i386 kernel. This library models the parts of it that keep state: the FAT32
-- driver, the allocators of memory, the page tables, the keyboard driver, the terminal, the
-- drivers of the disk and of the serial line, the interrupt table, the boot, the shell and its
-- commands, and the strings, the memory functions and printf of the C library; and proves what
-- makes them correct.
--
-- The parts, and the files that model them:
--
--  Fat: src/fs/fat.c and src/include/fat.h. Fat/State.antt has `Fat`, the error codes and the
--    callbacks of `DiskOps`, which are a parameter: `IsDevice` says what a disk that works does.
--    Fat/Bytes.antt reads and writes the packed structs of a sector. Fat/Cache.antt is the one-
--    sector cache (sync_buf, update_buf, sync_fs), Fat/Table.antt the allocation table (get_fat,
--    put_fat2, put_fat), Fat/Chain.antt the cluster chains (remove_chain, stretch_chain,
--    create_chain), Fat/Name.antt has short and long names and the parts of a path, Fat/Geo.antt
--    the sectors of a cluster, Fat/Clear.antt clust_clear. Functions on an object of their own
--    and its volume are in the monad `T` of Fat/Over.antt: Fat/Dir.antt walks and searches a
--    directory (dir_next, parse_lfn_name, dir_search), Fat/Path.antt follows paths, reads and
--    removes entries (follow_path, fat_unlink, fat_stat, fat_dir_open, fat_dir_read),
--    Fat/Add.antt adds them (dir_add, fat_dir_create, fat_file_open), Fat/File.antt is open
--    files (fat_file_seek, fat_file_read, fat_file_write, fat_file_sync, fat_file_close).
--    Fat/Mount.antt reads the boot sector and keeps the list of volumes (fat_probe, fat_mount,
--    fat_umount), Fat/Report.antt names the errors (fat_get_error), Fat/Time.antt has the
--    timestamps.
--  Pmm: src/mm/pmm.c, the bitmap of physical frames.
--  Kheap: src/mm/kheap.c, the kernel heap, a list of blocks.
--  Keyboard: src/driver/keyboard.c, scancodes and the ring buffer of characters.
--  Vmm: src/mm/vmm.c, page directories and page tables in memory.
--  Tty: src/driver/tty.c, the cells of the text screen, and its cursor.
--  Idt: src/kernel/idt.c, the gates, the handlers and the interrupt controllers.
--  Io: the ports of src/include/io.h, a parameter, and src/driver/io.c. Ata: src/driver/ata.c,
--    sectors over the ports of a drive; `IsDrive` in Ata/Drive.antt says what a drive that keeps
--    to the protocol does. Serial: src/driver/serial.c, the serial line, likewise with `IsLine`
--    in Serial/Line.antt. Timer: src/driver/timer.c.
--  Kernel: src/kernel/kernel.c, the order in which kmain sets up the parts; the characters that
--    the terminal keeps for the serial line are sent on the line of the machine there, as
--    terminal_putchar does; Kernel/Disk.antt has the callbacks of `DiskOps`.
--  Commands: src/kernel/commands.c, the commands on the terminal and the volume
--    (Commands/Run.antt has those that use the volume). Shell: src/kernel/shell.c, redirection,
--    the dispatch and the line that is typed.
--  Libc: memcpy, memmove, memset and memcmp of src/libc/string, over a memory of bytes;
--    Libc/Strings.antt the functions on strings, Libc/Printf.antt printf and puts of
--    src/libc/stdio.
--
-- Each child module of these says in its first lines what it proves things about. Modules named
-- Examples, Fat/Entries.antt, Fat/Reading.antt and Libc/Texts.antt run the definitions and apply
-- the theorems to concrete inputs.
--
-- A function that changes static variables or `*fat` takes the state and gives the new one. A
-- function of fat.c that returns an error code is in the monad `M` of Fat/State.antt, which keeps
-- the state where an error is returned. `uint32_t` is a number with `% 2 ^ 32` written where the
-- program can wrap. A sector is a list of 512 bytes. A cache is coherent where a buffer that is
-- not dirty agrees with the disk (`Coherent`).
--
-- Two loops of fat.c have no bound of their own, and run on fuel: the one of remove_chain and the
-- search of stretch_chain, each with one round more than the volume has clusters (`clust_cnt +
-- 1`). It is enough: a chain visits no cluster twice, and the search comes round to `last_used`
-- again. The loops of fat_file_read and fat_file_write get a round for each byte that is asked
-- for, of which each takes at least one. The loop of pmm_init gets a round for each frame below
-- `mem_low`, that of printf one for each character of the format, of which a round takes one at
-- least, and that of follow_path one for each character of the path. A walk over the entries of a
-- directory gets as many rounds as the clusters of the volume have entries (`entry_count`), and a
-- few more where dir_add may lengthen the directory; a directory whose chain of clusters comes
-- back to itself, which keeps the program in its loop, gives `stuck`. cmd_ls gets as many rounds
-- as a walk, cmd_cat one for each byte of the file and one more; where they run on, or the volume
-- is `stuck`, the command is `out_of_fuel`. The waits for the drive in ata.c and for the serial
-- line get a number of looks at its status that is an argument, since the drive may never be
-- ready. The error code `stuck` stands for fuel that ran out, and for the read of a file with 2 ^
-- 31 bytes or more left, whose count turns negative in C, and for a boot sector whose cluster
-- size of 0 the program divides by.
--
-- fat_mount is of a volume that is not in the list: of one that is, the code makes the list a
-- ring, which this list is not. Paths are followed on one mounted volume, whose name is an
-- argument; the list of volumes is with fat_mount. The bits of `fat->flags` are two Booleans. The
-- locals that C leaves uninitialised are a parameter (`Junk`). The blocks of the kernel heap are
-- a list, in the order of `next`, each with its address; kfree of a pointer that is no block's is
-- `none`.
--
-- The loops that wait for the drive and for the serial line have no bound in the program: they
-- look at the status as often as the fuel says, and a theorem asks for more fuel than the device
-- is busy for. kmain takes the callbacks of the disk as a parameter, since those of
-- Kernel/Disk.antt need not return.
--
-- Not modelled: the flushing of the TLB, the stubs of the interrupts and idt_flush, which are
-- assembly, the instructions sti and hlt, the guard of the stack (src/kernel/stack_protector.c),
-- and the boot loader.
pub mod Base
pub mod Fat
pub mod Pmm
pub mod Kheap
pub mod Keyboard
pub mod Libc
pub mod Kernel
pub mod Vmm
pub mod Tty
pub mod Idt
pub mod Io
pub mod Timer
pub mod Ata
pub mod Commands
pub mod Serial
pub mod Shell
