-- ===== src/Lib.antt =====
-- Frosk, a kernel for x86-64 with a C library and programs: the parts of it that are modelled, and
-- what is shown of them.
--
-- The kernel (`kernel/src`) keeps the memory of each process in regions. A region has blocks of
-- physical memory, which the page allocator hands out; `swapin` and `swapout` put the blocks of a
-- region into the page tables, and a page fault gives the stack or the heap of the current thread
-- another block. Interrupts go through a table of descriptors, and the file system reads devices
-- by any byte, through drivers that read whole blocks. The C library (`lib/cstd/src`) is linked
-- into user programs: its heap grows by the page faults that it causes. The shell (`prgm/start/src`)
-- draws a window in the file of the screen, and passes on the keys that it reads from the file of
-- the keyboard.
--
-- Which file models what:
--   Prelude, Prelude/*      tests on numbers, words of 64 bits, byte memory, and the library's names
--   Cstd/Str                lib/cstd/src/string.c, one function each, and its loop as `<name>_loop`
--     Copy, Compare, Order, Dup   copies, comparisons of bytes, the order of strings, strdup
--   Cstd/Number             utoa and itoa of lib/cstd/src/stdio.c
--     Print, Text, Frame    the two loops, the string that they leave, and where they write
--   Cstd/Format             vsnprintf of lib/cstd/src/stdio.c
--     Frame, Ends, Bounded, Written   where it writes, and that it ends
--     Text                  what it makes of a text without conversions
--   Cstd/Stream             the streams of lib/cstd/src/stdio.c on files, over the calls of Kernel/Files
--     Seek, Read            where fseek moves, and what fread delivers
--     Gets, Gets/*          fgets, over the bytes that it receives in each round, and the line that it makes
--   Cstd/Digits             the digits of a number, as the loops are to print them
--   Cstd/Malloc             lib/cstd/src/malloc.c: `head` and the chunk headers in memory
--     Fit, Chain, Served    first fit on lists, the list in memory, and what malloc gives
--     Overlap               freeing a block that was divided off
--   Cstd/Random, Cstd/Ctype rand and srand of stdlib.c, and ctype.c
--   Kernel/Device           dev_read of kernel/src/dev/dev.c, in the three parts of the function
--     Transfer, Complete    what arrives, on every error path, and from a device without errors
--   Kernel/Files            files of kernel/src/fs/fs.c: fs_size, fs_read and fs_write
--     Blocks, Read          the loop over the blocks, and reads from the begin
--   Kernel/Dirs             directories of kernel/src/fs/fs.c: the tree of entries, its filling, paths
--     Search, Order, Listing, Load, Path   finding, inserting, fs_next, assure_dir, fs_retrieve
--   Kernel/PathParse        parse_path of kernel/src/fs/parse.c
--   Kernel/Interrupt        the table of kernel/src/interrupt.c
--   Kernel/PageTable        get_entry, and the addresses of getpage, of kernel/src/paging.c
--   Kernel/Region           kernel/src/memory/region.c and region.h, and pageto of paging.c
--     Assure, Swap, Allocate, Shift, Overlap   one file for each group of functions
--     Backed                the addresses that have memory
--   Kernel/Pages            kernel/src/memory/pages.c: the circular lists of free ranges
--     Count, Free, Setup    alloc_pgs, free_pgs and setup_pages, by the ranges at an address
--   Kernel/Keyboard         the key buffer of kernel/src/dev/ps2.c
--     Stack                 what is put and read
--   Kernel/Mqueue           kernel/src/mqueue.c: a queue and its messages, in a store by address
--     Linked, Send, Fifo, Delivery   the list in the store, sending, receiving, and both in order
--   Kernel/Scheduler        kernel/src/scheduler.c: processes, threads, schedule and kspawn
--     Ring, Frame, Linked   circular lists, the first words on a stack, and what schedule leaves
--   Kernel/Uspawn           uspawn of kernel/src/scheduler.c: the memory of a new program
--     Words, Args, Image, Placed   words as bytes, the arguments, the code, and the whole program
--   Kernel/Fault            page_fault of kernel/src/paging.c
--   Prgm/Screen             prgm/start/src/fcurses.c: the bytes of the screen, and a window in it
--     Cells, Scroll, Local  the screen as cells, scrolling, and what stays outside of a window
--     Terminal, Typed       a terminal of its own, and the window that shows it
--   Prgm/Number             number_to_string of prgm/start/src/fcurses.c
--     Places                the digits by their places
--   Prgm/Keys               prgm/start/src/start.c: the frame, the tables of keys, the input of the shell
--     Frame, Letters, Typed, Shift   one file for what is shown of each
--   Cstd/Tests, Kernel/Tests, Prgm/Tests   runs at concrete inputs
--
-- State is passed on: byte memory is a function from addresses, a list of headers is a head and a
-- function from addresses to headers, and a list that only its owner reaches is a list. A 64-bit
-- operation that can wrap around is `add64`, `sub64` or `mul64`. A pointer into a byte buffer is not
-- wrapped around. `none` is a call that does not return: one that is out of fuel, one that an
-- assertion stops (the kernel is built with DEBUG, where a failed assertion loops for ever), or one
-- that enters a list through a pointer to nothing. Physical memory that `alloc_pgs` returns to the
-- functions of regions is an argument of theirs, as is the bounce buffer of `dev_read`.
--
-- Loops that follow pointers or strings take fuel, and the theorems ask for more fuel than the list
-- or the string is long. `utoa` has 64 rounds to find the weight of the first digit and 65 to print,
-- and the theorem on it has no condition on fuel: a 64-bit value has at most 64 digits. `vsnprintf`
-- takes its arguments as words by number, the address of its arrays for numbers, and `ftoa` for the
-- numbers with a fraction, as arguments.
--
-- Not modelled: the boot loader and the assembly of the kernel; port I/O, disks and video; the kernel
-- heap, the switch of threads, and the loading of programs from files; the way of a node of the file system into memory,
-- and the freeing of an entry that is overwritten; fopen, fclose, the reception of messages by fgets, ftoa and the wrappers of vsnprintf;
-- the system call stubs; the builder of file systems (util/fsb); the part of the shell that shows the
-- messages of its child, and the programs echo and test.
pub mod Prelude
pub mod Cstd
pub mod Kernel
pub mod Prgm
