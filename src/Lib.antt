-- ===== src/Lib.antt =====
-- The xv6 kernel for RISC-V of this repository, with its signals: models of its parts and theorems
-- about them.
--
-- The program is a small Unix. User processes call the kernel; the kernel keeps processes, memory,
-- pipes, and a file system on one disk, whose updates go through a write-ahead log. All of it is
-- guarded by spin locks. This fork adds signals in the manner of POSIX to `struct proc`.
--
-- Which file models which part:
--   Base       Numbers, tests, lists and bits that the parts share; no code.
--   Disk       kernel/bio.c as kernel/log.c uses it: bread, bwrite, bpin, bunpin on one disk with a
--              cache, and the sequence of writes that the disk was told.
--   Log        kernel/log.c, function by function; `recover` is initlog at boot. Below it: Install
--              (the loops), Header (read_head, write_head), Recover, Crash, Commit, Atomic and Again
--              (crashes), Record (log_write), Reserve (begin_op to end_op, interleaved).
--   Proc       `struct proc` of kernel/proc.h. Proc.Signals: kill, sigprocmask, sigaction, sigret,
--              signalHandler, userSpaceHandler and the default handlers of kernel/proc.c.
--   Pipe       kernel/pipe.c. Ring (the queue that the ring stands for), Stream (pipewrite and
--              piperead), Lossy (bytes that a reader misses), History (any interleaving of calls).
--   Spinlock   kernel/spinlock.c. Exclusion (CPUs interleaved), Nesting (push_off and pop_off).
--   Kalloc     kernel/kalloc.c. Pages (which pages are free, and which are handed out).
--   Strings    kernel/string.c: memmove and safestrcpy, in Move and Copy; Compare has memcmp,
--              strncmp, strncpy and strlen, and below it Equal what strncmp and strlen find.
--   Semaphore  bsem_alloc, bsem_free, bsem_down and bsem_up of kernel/proc.c. Ids (the invariant),
--              Reach (any sequence of calls), Calls (what a call does there), Cycle.
--   Bcache     The list of buffers of kernel/bio.c: binit, bget, brelse, bpin, bunpin. Get (one
--              call), Unique (any sequence of calls).
--   Grep       The matcher of user/grep.c (match, matchhere, matchstar), and in Language what its
--              expressions mean.
--   Vm         Page tables of kernel/vm.c: walk, walkaddr, mappages. Lookup (an entry after an
--              assignment), Map (mappages), Memory (the pages that they take).
--   Uvm        User memory of kernel/vm.c: uvmcreate, uvmunmap, uvmdealloc, uvmalloc, uvmfree,
--              freewalk. Unmap, Grown, Enough (memory that growth needs), Alloc. Uvmcopy: uvmcopy,
--              uvmclear and uvminit.
--   Procmem    proc_pagetable and proc_freepagetable of kernel/proc.c; Fixed (what is mapped).
--   Usercopy   copyout, copyin and copyinstr of kernel/vm.c. Pages, Loads and Strings (the loops
--              over pages against one pass over bytes), Bytes and Trip (what is copied out is read).
--   Syscall    kernel/syscall.c: the arguments of calls, and syscall for any table of calls. Fetch
--              (fetchstr).
--   Ptable     The process table of kernel/proc.c: sleep, wakeup, yield, a choice of scheduler,
--              reparent and the end of exit. Wakeup (the parent in wait), Orphans (reparent).
--   Lifecycle  allocproc, freeproc, userinit, growproc, fork, wait and the start of exit, on the
--              table of Ptable and an interface to memory and files. Wait (one pass of wait), Steps
--              (processes interleaved), Fork.
--   Sleeplock  kernel/sleeplock.c on the table of Ptable. Exclusion (processes interleaved).
--   Fs         kernel/fs.c: the superblock, the state of the file system, balloc and bfree. Bytes
--              (numbers in the bytes of a block), Bitmap (the two allocators).
--   Inodes     kernel/fs.c: iget, idup, ilock, iunlock, iupdate, ialloc, stati. Dinode (inodes on
--              disk), Unique (the table).
--   Content    kernel/fs.c: bmap, itrunc, iput, readi, writei. Again (the place of a block), Ends
--              (the loops), Write (readi behind writei).
--   Directory  kernel/fs.c: dirlookup, dirlink, skipelem, namex. Path (skipelem).
--   File       kernel/file.c, with pipes, inodes and devices behind an interface. Refs (the counts).
--   Descriptors  kernel/sysfile.c: argfd, fdalloc, the calls dup, read, write, close and fstat, and
--              the part of pipe that takes descriptors. Balance (descriptors and counts).
--   Entries    kernel/sysfile.c: link, unlink and chdir, in Make create, mkdir and mknod, and in
--              Open open, behind their arguments. Counts (descriptors and counts of files).
--
-- Correspondence. A C struct is a record and a C function a function with the same name in snake
-- case; state that it changes is passed and returned. `panic` is `none`, or
-- `panic` of `Run` in Vm, whose `lost` stands for fuel that ran out and for a pointer that the
-- model cannot follow. A function that sleeps is
-- cut there: it returns that it sleeps, and what it does when woken is another call. A function
-- with a lock held is one step; `acquire` and `release` themselves are cut at each access to the
-- lock, but for the two reads of `holding`, which are one step: interrupts are off there, and no
-- other CPU makes `lk->cpu` this one. Numbers are natural numbers; the counters of a pipe and the
-- numbers of semaphores wrap at 2 ^ 32, a stack pointer at 2 ^ 64, and signal masks are 32 bits. A
-- process without a backup page has `backup_page` 0, at which delivery and `sigret` panic, as the
-- kernel's fault does.
--
-- Buffers. Log, on Disk, sees a cache that never recycles a buffer: what is cached stays, and
-- `bpin` and `bunpin` only count. Buffers that are recycled, and what their counts are for, are
-- modelled in Bcache.
--
-- Fuel. The loops count up to a bound that the model passes as the number of rounds, which is the
-- number of rounds of the code. `freerange_from` has fuel for one round more than there are pages
-- below its end; that is enough for it to return, as the theorem on kinit shows. `map_rounds`, the
-- fuel of `mappages`, is one round for each page below MAXVA, and walk panics at MAXVA. The copies
-- to and from user memory have a round for each byte and one more, and each round copies at least
-- one byte. `grow_from` and `copy_from` have two rounds more than there are whole pages in the size.
--
-- The loops of `balloc`, `readi`, `writei`, `dirlookup` and `dirlink` have two or three rounds more
-- than there are whole blocks or entries in the size, `namex` one more than the path has bytes, and
-- the loop of `filewrite` one more than the bytes to write.
--
-- File system. It is seen from within a transaction: `bread` returns what was last logged for a
-- block, and `log_write` does not panic, which is what Log shows of the calls of a reserved
-- transaction. The caller of a function has the locks that the code's comments ask for, and is not
-- interleaved with others. A call that would sleep for an inode's lock is `lost`. Block and inode
-- numbers do not reach 2 ^ 31.
--
-- Page tables. A table is a tree of three levels with the addresses of its pages; that the pages of
-- two tables, or of a table and of user memory, are different is part of the representation. A
-- leaf in an upper level, which the kernel does not make, is not represented. A process is its
-- index in the table, and a channel a number.
--
-- Not modelled: the switch of contexts, the kernel's own page table and stacks, kernel/exec.c, the
-- calls of kernel/sysproc.c, traps, devices, start-up in assembly, the host
-- tool mkfs/mkfs.c and the programs of user/ but for that matcher. In the log, blocks that other
-- calls change while a commit runs, and in the locks, weak memory: the fences of the code are
-- taken to do their work.
pub mod Base
pub mod Disk
pub mod Log
pub mod Proc
pub mod Pipe
pub mod Spinlock
pub mod Kalloc
pub mod Strings
pub mod Semaphore
pub mod Bcache
pub mod Grep
pub mod Vm
pub mod Uvm
pub mod Uvmcopy
pub mod Procmem
pub mod Usercopy
pub mod Syscall
pub mod Ptable
pub mod Sleeplock
pub mod Lifecycle
pub mod Fs
pub mod Inodes
pub mod Content
pub mod Directory
pub mod Entries
pub mod File
pub mod Descriptors
