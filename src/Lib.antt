-- ===== src/Lib.antt =====
-- JOS, the teaching kernel of the operating systems course, with its user library and file server.
--
-- The kernel (kern/) keeps physical pages, page tables and environments, chooses which environment
-- runs, and serves system calls. The file server (fs/) runs as an environment, keeps a disk of 4
-- KB blocks in memory, and serves files to other environments through messages. The library models
-- these parts:
--
-- Kern/Pmap.antt: kern/pmap.c, `struct PageInfo` of inc/memlayout.h. `Phys` has the globals
-- npages, pages and page_free_list, and the words of memory by frame and index. A `struct PageInfo
-- *` is its index. page_init, page_alloc, page_free and page_decref are functions on `Phys`;
-- `none` is a panic. FreeList has what they do to the list, Init the list after boot, DoubleFree
-- the reach of the check in page_free.
--
-- Kern/Paging.antt: kern/pmap.c, the macros of inc/mmu.h. pgdir_walk, page_lookup, page_remove and
-- page_insert over the words of directories and tables. Lookup, Insert, Replace and NewTable
-- follow the cases of an address: read, not mapped, mapped, and without a table. Failure is about
-- calls that do nothing.
--
-- Kern/EntryPgdir.antt: kern/entrypgdir.c, the first directory and its two tables as functions of
-- the index; Mapping says what they map.
--
-- Kern/Boot.antt: boot_alloc and boot_map_region of kern/pmap.c, region_alloc of kern/env.c;
-- Chunks is about boot_alloc.
--
-- Kern/UserMem.antt: kern/pmap.c, user_mem_check over the tables of a directory; Range says what
-- its answers mean.
--
-- Kern/Env.antt: kern/env.c, inc/env.h, inc/trap.h. `Kernel` joins `Phys` with the table envs,
-- curenv and env_free_list. envid2env, env_init and env_alloc with env_setup_vm. Lookup is about
-- identifiers, Alloc about env_alloc, Cycle about the free list that env_init builds.
--
-- Kern/Destroy.antt: kern/env.c and kern/syscall.c, env_free with the tables of an environment,
-- env_destroy, user_mem_assert, sys_env_destroy and sys_env_set_trapframe. Free relates env_free
-- to env_alloc.
--
-- Kern/Lock.antt: kern/spinlock.c. The steps of the processors are a relation; Exclusion has what
-- holds in every order of them.
--
-- Kern/Kdebug.antt: kern/kdebug.c, inc/stab.h. stab_binsearch on a table of entries; Rounds is
-- about the end of its loop, Progress about what holds in it, Nearest about what it finds. Info
-- has debuginfo_eip on top of it.
--
-- Kern/Console.antt and Kern/Keyboard.antt: kern/console.c. The text screen and the cursor, the
-- input buffer, and the scan codes with the tables of inc/kbdreg.h; Display, Input and
-- Keyboard/Modifiers have the theorems. What ports deliver is an argument.
--
-- Kern/Sched.antt: kern/sched.c, and env_run of kern/env.c. The switch of registers and address
-- space is an outcome of type `Dispatch`. Choice is about the loop, Running about the whole of
-- sched_yield, Frame about what it leaves alone.
--
-- Kern/Syscall.antt and Kern/Ipc.antt: kern/syscall.c. The calls on environments and pages, and
-- the messages, compose the functions above. Maps has the conditions on addresses, Errors and
-- Alloc the calls that fail, Share and Fork the calls that succeed; Ipc/Send, Ipc/Receive and
-- Ipc/Errors are about messages.
--
-- Kern/Trap.antt: kern/trap.c with syscall of kern/syscall.c. trap joins the parts above: it saves
-- the frame, dispatches by number, and ends in an environment, hlt or the monitor. Trap/Frame has the
-- UTrapframe that page_fault_handler stores through the page directory of the environment, and
-- Frame/Stored what that changes in memory. Resume is about system calls after which the environment
-- goes on, Fault about page faults with an upcall, Foreign about calls on environments that the caller
-- may not change. What cons_getc, gettime and rcr2 return, and the trap frames in user memory, are
-- arguments.
--
-- Fs/Bitmap.antt and Fs/File.antt: fs/fs.c, fs/bc.c, inc/fs.h. `Disk` has the blocks as the server
-- sees them and as the disk holds them; the bitmap lies in the blocks from 2 on. alloc_block,
-- free_block, file_block_walk, file_get_block and file_free_block. Fs/Bitmap/Check.antt has
-- check_super, check_bitmap and fs_init. Bitmap/Alloc, Bitmap/Reserved and File/Block have the
-- theorems.
--
-- Fs/Bytes.antt and Fs/Data.antt: fs/fs.c, bytes within the 32-bit words of a block, and
-- file_read, file_write, file_set_size and file_truncate_blocks; Data/RoundTrip is about reading
-- what was written. Fs/Dir.antt and Fs/Path.antt: fs/fs.c, `struct File` in the words of a
-- directory's blocks, dir_lookup and dir_alloc_file, and walk_path, file_open and file_create;
-- Dir/Lookup and Path/Components have the theorems.
--
-- Fs/Serve.antt: fs/serv.c, the table of open files, with what pageref says of their pages as
-- state; Open is about the identifiers that it hands out, and Serve/Requests.antt has serve_open,
-- serve_read, serve_write and serve_set_size on the table and the file system.
--
-- User/Pipe.antt: lib/pipe.c. The bodies of the loops of devpipe_read and devpipe_write are the
-- steps of a relation, so that the two sides can be interleaved in any order; Fifo has the
-- invariant.
--
-- User/Fd.antt: lib/fd.c, inc/fd.h. A descriptor is a page of the address space, which maps it to
-- a physical page, so that two descriptors may be one page. `Devices` is `struct Dev` as a record
-- of functions. Table is about fd_alloc, Close about close and close_all; Fd/Calls.antt has dup,
-- read, write, ftruncate and seek, Calls/Dup, Calls/Misuse and Calls/Seek their theorems.
--
-- User/Fork.antt: lib/fork.c, duppage, the loop of fork over the pages and the fault handler, on
-- the entries of a parent and its child; Isolation is about what the two see of each other's
-- stores.
--
-- User/Memory.antt and User/Strings.antt: lib/string.c on memory as a function of the address. Of
-- memset and memmove the versions with string instructions are modelled, which `#define ASM 1`
-- selects; what the instructions do is written out as loops. Memory/Move, Memory/Search and
-- Strings/Copy have the theorems.
--
-- User/Number.antt: printnum of lib/printfmt.c and strtol of lib/string.c, on strings as lists of
-- bytes; Read has the theorems. User/Format.antt: vprintfmt of lib/printfmt.c as the bytes that it
-- puts, with the flags of an escape as a record; Format/Print.antt has vsnprintf with its buffer
-- in memory; Escapes is about its fuel, Buffer about vsnprintf, Decimal about reading a number
-- back. User/Args.antt: lib/args.c, with the loop of user/sh.c over argnext; Options is about that
-- loop. User/Shell.antt: _gettoken of user/sh.c, with the tokens of a line as successive calls;
-- Shell/Tokens is about what they keep of it. User/Time.antt: timestamp and mktime of inc/time.h;
-- Elapsed relates the two.
--
-- Base.antt passes on the names of the libraries and has tests on numbers, arrays as functions,
-- and single bits of words.
--
-- Numbers are natural numbers; where the source's arithmetic wraps (reference counts of 16 bits,
-- identifiers and words of 32 bits), the remainder is written out. Pointers that may be NULL are
-- options. The loop of sched_yield runs on fuel NENV, which is enough since it goes round the
-- table once. The loops of mktime run on as many rounds as there are seconds, those of printnum on
-- as many as the number, and the loop of walk_path on the length of the path: each round uses up
-- at least one. vprintfmt takes one round more than the format has bytes, each round uses up one
-- at least, and stab_binsearch twice as many rounds as its region has entries. Tokens are taken on
-- a fuel that has to exceed the length of the line. Loops over bytes of a file run on the number
-- of bytes, and string functions that only a NUL ends on a fuel, with `none` where it is used up.
-- The loop of user_mem_check has as many rounds as there are pages. All other loops recurse on
-- their number of rounds.
--
-- Not modelled: the ports of devices, assembly and the TLB, since they change no state that is
-- kept here; the boot-time self checks; flushes of the file server, which only write blocks to the
-- disk; and, so far, its request loop, load_icode, spawn, the calls in fork around its loop, and
-- the rest of the user programs. The kernel addresses memory by the words of frames; what user
-- programs themselves read and write there has no counterpart in its model.
mod Base
pub mod Kern
pub mod Fs
pub mod User
