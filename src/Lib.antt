-- ===== src/Lib.antt =====
-- The kernel under xv6-public/: xv6 with memory mappings (wmap). This library models parts of its C
-- code as functions and proves what makes them correct.
--
-- Conventions. A `uint`, an `int` and a pointer are numbers below 2 ^ 32 with the wrap-around written
-- out (Prelude.Word); an `int` that is compared as signed is tested by its sign bit. A C array is a
-- list of all its slots (Prelude.Lists): reading out of bounds gives a default, writing there changes
-- nothing. State is passed and returned, `none` of an Option is a panic or a sleep as each file says,
-- and -1 is the word 2 ^ 32 - 1. Locks are not modelled: a function is what one process does between
-- two points at which it may wait, and other processes come in as further steps.
--
-- Prelude: names of the libraries, Boolean tests, arrays, words, and pages (mmu.h, memlayout.h).
--
-- Wmap: xv6-public/wmap.c. Wmap.Types has `struct mapping` and the fields of `struct proc` (proc.h) that
-- hold the mappings, and Wmap.Invariant the well-formedness of these. Wmap.Sort is selectionSort,
-- Wmap.Place the overlap test and the two scans of wmap, Wmap.Alloc wmap itself. Wmap.Unmap is wunmap,
-- and the loop of `exit` (proc.c) that calls it, on the mappings together with the page table, which
-- is a map from the address of a page to its frame, and the frames that went to kfree. `filewrite` is a
-- parameter there, the answer whether the write succeeds. The flags are tested by the bitwise `and` of
-- the native numbers. The loops run as often as the code's counters say; the loop over the pages of a
-- mapping is bounded by the end of the mapping divided by the page size, and the loop of `exit` by the
-- count of mappings. wremap and the page faults are in Mm.
--
-- Log: xv6-public/log.c but initlog. Log.Disk is what log.c sees of the buffer cache: the contents that
-- bread returns, the buffers that are dirty, and a disk that writes whole blocks until its power is used
-- up. Power that ends after any number of block writes is a crash there. Log.Ops has the functions of
-- log.c by their names; the other modules follow a commit (Writes, Head, Crash), the recovery
-- (Recovery), log_write (Transaction), and the room that begin_op reserves (Reservation). The header
-- block is seen as its words. The log reads and writes through Log.Disk only.
--
-- Pipe: xv6-public/pipe.c. The buffer and its counters, pipewrite, piperead and pipeclose; a call that
-- sleeps ends, and goes on as another call. Pipe.Fifo takes one call, Pipe.History all orders of calls.
-- The wakeups and the files of pipealloc are left out, and a step may also come after the last close.
--
-- Kalloc: xv6-public/kalloc.c, on a memory of 32-bit words, with `stosl` (x86.h), which memset (string.c)
-- calls to fill a page. The symbol `end` of the linker is an argument. Kalloc.Chain is the free list in
-- the memory, Kalloc.Laws one call, Kalloc.Range freerange, Kalloc.History all orders of calls and of
-- stores by those who hold a page. The loop of freerange is bounded by the end of the range divided by
-- the page size.
--
-- Syscall: xv6-public/syscall.c without the dispatch, and of sysproc.c sys_wmap and sys_wunmap, which
-- call Wmap. The process is its size, its stack pointer and the bytes of its memory; the search of
-- fetchstr is bounded by the bytes from its start to the size.
--
-- Strings: xv6-public/string.c with the stores of x86.h, on a memory of bytes by address. Strings.Move is
-- memmove and memcmp, Strings.Fill memset, Strings.Copy safestrcpy. strlen looks at a bounded count of
-- bytes; the counts of strncpy and safestrcpy are not negative.
--
-- Ulib: of xv6-public/ulib.c strcpy, strcmp, strchr and atoi, which look at a bounded count of bytes;
-- Ulib.Compare is strcmp.
--
-- Proc: xv6-public/proc.c with proc.h: allocproc, fork, exit from where it takes the lock (what it does on
-- the mappings before is in Wmap.Unmap), wait, sleep, wakeup, kill, yield and the scheduler, on the table
-- of 64 processes; a function is what happens under ptable.lock, or between two such sections of allocproc
-- and fork. Proc.Types has the processes, Proc.Loops the loops over the table, Proc.Adopt, Wake, Reap,
-- Birth and OnCpu one operation each, Proc.Family the parents, Proc.Pending and Building the processes
-- that a fork is building. Proc.Steps are the steps of the processors, in any order, where fork is four
-- steps; Proc.History what holds after them, and Proc.Meet an exit that meets a wait. copyuvm, freevm and
-- the loop of fork over the mappings (fork_maps of Mm) are arguments there. The scan of the scheduler ends
-- with the table. The files, the directory and the name of a process are left out; so are growproc,
-- userinit and procdump.
--
-- Vm: xv6-public/vm.c with the macros of mmu.h: walkpgdir, mappages, setupkvm, allocuvm, deallocuvm,
-- freevm, copyuvm, clearpteu, uva2ka and copyout. A page directory is a tree of tables with their pages,
-- which Kalloc gives and takes. Vm.Walk is one entry, Vm.Map mappages, Vm.Dealloc deallocuvm,
-- Vm.Roundtrip both, Vm.Guard the page beneath the stack. The rounds of mappages are the count of its
-- pages; the other loops go up by a page in each round at least, so the end divided by the page size
-- bounds them. inituvm and loaduvm are not modelled.
--
-- Bio: xv6-public/bio.c with the sleep locks of the buffers (sleeplock.c) and the disk in memory
-- (memide.c). Bio.Search has the loops of bget and the list, Bio.Coherence what the buffers and the disk
-- have in common, Bio.Bread bget and bread, Bio.History all orders of calls, Bio.View what
-- the cache stands for, the newest contents of each block, and Bio.Refine the steps on that. Log.Disk is a view of the same
-- cache that keeps only what log.c sees of it.
--
-- Mm: the rest of xv6-public/wmap.c, on the page tables of Vm and the page allocator: wunmap again, now
-- with the pages that it frees, wremap, handle_pagefault, getpgdirinfo and getwmapinfo; sys_wremap
-- (sysproc.c), and the loop of `fork` (proc.c) over the mappings. Mm.Remap and Mm.Drop are wremap, Mm.Fault
-- a page fault. What readi puts into a page and whether filewrite succeeds are arguments. The loops over
-- pages go up or down by a page in each round, so an end or a size divided by the page size bounds them.
--
-- Fs: xv6-public/fs.c with fs.h and `struct inode` (file.h). The disk is the
-- blocks that bread returns (Bio.View): log_write sets one, brelse nothing. Fs has the bitmap with balloc and
-- bfree (Bits, Bitmap), Fs.Inode iupdate, bmap, itrunc, stati, readi and writei (Content: the reading),
-- Fs.Icache ialloc, iget, idup, ilock, iunlock, iput (Find, Keep, Count, Ops and History: the references),
-- Fs.Path skipelem on the bytes of a path (Split, Name, Elements), and Fs.Dir dirlookup and dirlink (Compare,
-- Lookup), Fs.Namex the look-up of a path. Devices are an argument, the table devsw. The loops have one round for each block, inode,
-- entry or element of a path, and one to end in.
--
-- File: xv6-public/file.c: filealloc, filedup, fileclose, filestat, and of fileread and filewrite what they
-- do on an inode. File.Table has the steps of the processes on the table of open files, File.History all
-- orders of them. The transactions are left out, and so is the page of a closed pipe.
--
-- Not modelled: sysfile.c and the rest of sysproc.c, exec.c, spin locks, ide.c, the console, the rest of
-- ulib.c, and the user programs; and what is I/O on devices or assembly.
pub mod Prelude
pub mod Wmap
pub mod Log
pub mod Pipe
pub mod Kalloc
pub mod Syscall
pub mod Strings
pub mod Proc
pub mod Vm
pub mod Bio
pub mod Ulib
pub mod Mm
pub mod Fs
pub mod File
