-- ===== src/Lib.antt =====
-- A verification library for the kernel of this repository: an xv6 for the x86 with added calls for
-- video modes and drawing (the sources stand at the repository's root).
--
-- Layout. `Prelude` passes the library names on and adds the tests, lists, words and outcomes that all
-- modules share. Each part of the kernel is a module with its definitions, and its children hold the
-- proofs, with tests and concrete instances in a child `Tests`:
--   * `Pipe` (pipe.c): pipewrite, piperead, pipeclose over a ring of 512 bytes. `Pipe/Ring` is the
--     representation, `Pipe/Fifo` the refinement to a queue, `Pipe/Wake` the wakeups.
--   * `Log` (log.c): begin_op, end_op (`leave_op` up to its first release, `finish_commit` for its
--     rest), log_write, commit, recover_from_log, initlog. `Log/Header` is the header block,
--     `Log/Region`, `Log/Install`, `Log/Commit` and `Log/Crash` the crash safety, `Log/Ops`,
--     `Log/Room`, `Log/Space` and `Log/Overrun` the reservation of log space.
--   * `Proc` (proc.c): the process table and allocproc, fork, exit, wait, sleep, wakeup1, kill,
--     yield and the scheduler's choice. `Proc/Table` has the loops over the table, `Proc/Wait`,
--     `Proc/Orphans`, `Proc/Exit` and `Proc/Kill` what these calls do, `Proc/Invariant`,
--     `Proc/Preserve`, `Proc/Lifecycle` and `Proc/Step` the table as a transition system.
--   * `Spin` (spinlock.c): pushcli, popcli, acquire and release on several CPUs. `Spin/Nesting` is the
--     nesting of pushcli, `Spin/Exclusion` the interleavings and mutual exclusion.
--   * `Bio` (bio.c, sleeplock.c): the list of buffers, bget and brelse. `Bio/Count` and `Bio/Unique`
--     count the buffers of a block, `Bio/Pinned` is what bget finds and keeps.
--   * `Screen` (console.c): cgaputc (`put_text` in the text mode, `put_copy` in a graphics mode),
--     consolewrite, snapshotTextTake, snapshotTextRestore and consolevgamode. `Screen/Cells` is one
--     character, `Screen/Offscreen` printed text over changes of the mode.
--   * `Strings` (string.c): memset, memmove, memcmp, strncmp, strncpy and safestrcpy on a memory of
--     bytes. `Strings/Move` is memmove and memset, `Strings/Copy` the copies of C strings,
--     `Strings/Compare` the comparisons.
--   * `Kalloc` (kalloc.c): kfree, kalloc and freerange on a free list that runs through the memory.
--     `Kalloc/Pages` is the list and one call, `Kalloc/Steps` any sequence of calls and stores,
--     `Kalloc/Range` freerange.
--   * `Pixel` (console.c): setpixel and binaryStuff. `Pixel/Colour` is the colour of a pixel.
--   * `Blocks` (fs.c, fs.h): the bitmap of the blocks in use with balloc, bfree and bzero, and the words of
--     a block. `Blocks/Bits` and `Blocks/Words` are bits and words, `Blocks/Find` the search for
--     a free block, `Blocks/Alloc` balloc and bfree, `Blocks/Data` the blocks that hold data,
--     `Blocks/Sample` a small disk.
--   * `Content` (fs.c): the block map of an inode and bmap. `Content/Mapped` is the map, `Content/Run`
--     the ways in which bmap ends, `Content/Bmap` what it does to the map, `Content/Extends` what it does
--     to the blocks, `Content/File` the invariant of a file and its contents.
--   * `Readwrite` (fs.c): iupdate, the load of an inode in ilock, readi and writei. `Readwrite/Dinode` is
--     the inode on the disk, `Readwrite/Change` a change of a block, `Readwrite/Write`,
--     `Readwrite/Writei` and `Readwrite/Writes` are writei, `Readwrite/Read` is readi.
--   * `Truncate` (fs.c): itrunc. `Truncate/Free` is a run of calls of bfree, `Truncate/Trunc` the loops,
--     `Truncate/Whole` and `Truncate/File` the call.
--   * `Names` (fs.c): skipelem and namex over the entries of the directories. `Names/Elements` is the
--     elements of a path, `Names/Resolve` namex.
--   * `Dirs` (fs.c): dirlookup over readi. `Dirs/Entry` is the test of one entry, `Dirs/Lookup` the loop.
--   * `Icache` (fs.c): the cache of inodes with iget, idup and iput, each as one step (iput
--     releases the lock of the cache in between in the source), with references that do not
--     overflow. `Icache/Unique` is the invariant.
--   * `Grep` (grep.c): match, matchhere and matchstar, and the loop of grep over the lines.
--     `Grep/Star` is what a pattern means, `Grep/Matches` the matcher, `Grep/Lines` the lines of a
--     buffer, `Grep/Pieces` a file that is read in pieces.
--
-- Correspondence. A C struct is a record with the source's field names, a `panic` is the outcome
-- `panic` with its message, and a function that mutates shared state takes that state and returns
-- it. A stretch of code that runs under one spin lock is one step: acquire and release are its
-- borders, and `sleep` ends a stretch, after which the process goes on with the state that it then
-- finds. An array that is only read and written by an index in range is a function from indices.
-- 32-bit counters wrap by `% 2 ^ 32`. In `Readwrite`, `Names` and `Dirs` a return of -1 or of a
-- null pointer is `none`.
--
-- Bounds and fuel. Loops over an array recur on the rounds left (NPROC, the length of a list).
-- freerange is given `vend / PGSIZE` rounds, which are enough, since each of them goes a page on
-- and ends below `vend`. In `Log/Ops` an operation writes at most MAXOPBLOCKS blocks, as param.h
-- documents, each of them as often as it likes. The loops of readi and writei are given a round for
-- each byte that is wanted, which is enough, since each round moves one byte at least. The loop of
-- namex is given a round more than the path has bytes, since each element takes a byte at least.
-- The loop of grep over the lines of its buffer is given a round for each byte, and dirlookup one
-- for each byte of the directory. Pids are assumed not to run out (nextpid stays below 2 ^ 31).
--
-- Not modelled: the disk's hardware and drivers (ide.c), interrupts, the contents of user memory
-- and page tables (vm.c), ialloc and dirlink (fs.c), open files (file.c, sysfile.c), the console's
-- input line and cprintf (console.c), the serial port, and user programs other than grep. In
-- `Screen` the text memory after a change of the VGA registers is arbitrary, and in `Pixel` the
-- planes are apart from the text memory, the cursor registers of the VGA keep their value in a
-- graphics mode, and console output after a panic is left out; the eight bytes that setpixel copies
-- into an `int` are not modelled, only the one that it changes. In `Log` the buffer cache is what
-- bread returns for each block: bio.c keeps a dirty buffer in the cache until bwrite. In `Proc` the
-- results of kalloc and copyuvm are arguments, allocproc is one step from its search to the setting
-- of the kernel stack (in the source the lock is released before kalloc), and files, directories,
-- names and registers are left out. In `Blocks`, `Content` and `Readwrite` a block is what bread
-- returns within a transaction, and the calls of log_write are recorded; the lock of the inode is
-- held throughout. The functions of a device in devsw are arguments, and a short of an inode is its
-- 16 bits. In `Names` what dirlookup finds is an argument, and the references that namex counts are
-- left out. `Grep` is given what each read returns.
pub mod Prelude
pub mod Pipe
pub mod Log
pub mod Proc
pub mod Spin
pub mod Bio
pub mod Screen
pub mod Strings
pub mod Kalloc
pub mod Pixel
pub mod Blocks
pub mod Content
pub mod Readwrite
pub mod Grep
pub mod Names
pub mod Dirs
pub mod Icache
pub mod Truncate
