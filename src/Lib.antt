-- ===== src/Lib.antt =====
-- Verification of the domains of an isolated-domain kernel: tasks, files and schedulers.
--
-- The kernel runs each of its parts as a domain that is compiled apart and called over an
-- interface: the task domain (common/task), the VFS domain (common/vfs), the schedulers
-- (common/fifo_scheduler, common/random_scheduler), drivers, file systems. The task domain keeps
-- the descriptors and the futex queues of the processes, the VFS domain the open files behind the
-- descriptors, and a scheduler the tasks that can run. A descriptor stands for the number of an
-- inode in the VFS domain; a pipe call of the user opens two files there and two descriptors here.
-- The system calls (common/syscall) run on both.
--
-- Prelude: names of the libraries, Boolean tests, lists, results with errors and panics
--   (Prelude/Failure), calls on a state (Prelude/Act), what holds after them (Prelude/Triple), states
--   that give out ids (Prelude/Ids), and `BTreeMap` as a sorted association list
--   (Prelude/Map).
-- Task/SlotVec: common/task/task/src/utils.rs. Defs has one function for each method of `SlotVec`;
--   Count has the count of occupied slots, Slots what the methods do to it and to `get`.
-- Task/Fd: `FdManager` (common/task/task/src/resource.rs), the methods of `Task` and `TaskDomain`
--   over it (task.rs, lib.rs) and the calls of syscall/fs.rs. Calls has the functions, Table what
--   they do to the table.
-- Task/Futex: `FutexWaitManager` (common/task/task/src/futex.rs) in Queue and the call
--   (syscall/futex.rs) in Call; Wake, Requeue and Protocol have the theorems.
-- Task/Memory: `MMapInfo`, `MMapRegion` and `HeapInfo` (common/task/task/src/resource.rs) in
--   Regions and Heap, `brk` (`Task::extend_heap` of task.rs) in Heap, the calls of syscall/mmap.rs
--   in Calls; Lookup, Mapped and Changes have the theorems.
-- Task/Process: the processes (`Task` and `TaskInner` of common/task/task/src/task.rs, the table
--   of tasks of processor.rs) as a store of tasks by tid in State; groups and sessions (lib.rs) in
--   Groups, what `do_clone` does to the processes in Clone, syscall/exit.rs in Exit, which runs
--   the futex call of Task/Futex, syscall/wait.rs in Wait. Sessions, Targets and GroupLaws,
--   Family, Handover, ExitLaws and CloneLaws, WaitLaws and Reaping have the theorems.
-- Drivers/CacheBlk: drivers/cache_blk/cache_blk/src/lib.rs. Page has `PageCache`, Flat, Written
--   and Laws the pages seen as bytes in a row.
-- Generic: `GenericFsDomain` (common_lib/generic/src/lib.rs), which serves the dentries of a file
--   system to the other domains. Core has what it uses of vfscore, as parameters, State the maps
--   and the ids, Tree, Inodes and Mount one function for each method, Run all the methods as one
--   step, and Keeps, TreeLaws, InodeLaws, MountLaws, RunLaws, Sequences and Issued the theorems.
-- Vfs/Pipe: common/vfs/vfs/src/pipe.rs. Ring has `PipeInodeData`, Inode the waiting loops, `poll`
--   and the two files, Queue and Loops the ring seen as a queue of bytes, Order and Waiting the
--   theorems.
-- Vfs/Flags: the flag sets of `bitflags` that the files ask.
-- Vfs/EventFd: common/vfs/vfs/src/eventfd.rs. Counter has the calls, Bytes their byte order, Laws
--   and Races the theorems.
-- Vfs/File: `KernelFile` (common/vfs/vfs/src/kfile.rs) in Calls, over a parameter for the inode;
--   Laws has the theorems.
-- Vfs/Domain: the map of open files of the VFS domain (common/vfs/vfs/src/lib.rs). Core has what it
--   asks of files (`dyn File`) and of vfscore, as parameters, one of which is the drop of a file's
--   contents (`FsShimInode::drop` of common_lib/vfs_common/src/shim.rs, `SocketFile::drop` of
--   socket.rs), which may panic; State the statics and `insert_dentry`, `remove_file` with the drop of
--   a file, and `KernelFile::new`; Calls, Paths and Special the methods of `VfsDomainImpl`,
--   with `EpollFile::ctl` (epoll.rs); Recovery what is done to the map after a crash (tree.rs); Run
--   all the methods as one step. Quiet, QuietCalls, Sound, Closing, Keeps, SpecialKeeps, RunLaws,
--   Sequences, Recovered, Lost and SpecialLaws have the theorems, and Sample a small world for the tests.
-- Syscall: the system calls on files (common/syscall/syscall/src/fs). Domains has the task domain and
--   the VFS domain as interfaces, Paths, Links and Data the calls by paths and by descriptors
--   (basic.rs, mod.rs), Sendfile and Select the loops of sendfile, select and ppoll, Control those of control.rs
--   and poll.rs, Unsupported those that answer ENOSYS. Balance says what the calls promise of the
--   domains; Steps, Opening, Balanced, Amounts, Enough and Waiting have the theorems, and Instance
--   shows that Vfs/Domain keeps the promises.
-- Vfs/Second: the two functions of common/vfs2/vfs2/src that differ from those of common/vfs.
-- Sched: the trait `Scheduler` and `GlobalScheduler`
--   (common_lib/common_scheduler/src/scheduler.rs) in Interface and Global, and the two schedulers
--   that fill the interface in Fifo and Random, the latter with its search loop in Random/Scan and
--   its theorem in Random/Fetch.
--
-- State is passed explicitly. A lock is held during one function of the model; a loop that gives
-- up the processor between two looks is a function of one look (`read_turn`, `read_look`) or of
-- the list of states that its looks find (`read_at`, `do_wait4`), so no fuel is used: most
-- other loops recurse on their lists or counters. The loop of sendfile has fuel for as many rounds as
-- bytes are wanted, since a round moves one at least; the loops of select and ppoll, which may wait
-- without end, answer `none` where their fuel runs out. Calls into other domains and crates are
-- parameters: waking and waiting of tasks, the clock, the address space, the frame size, the
-- length `PIPE_BUF` of a ring, the flag sets. A `usize` is a natural number; `% 2 ^ w` stands
-- where the source narrows or may wrap. `nice`, an `i8`, is kept as the number that is larger by
-- 128.
--
-- Not modelled: the mapping of device and vdso pages, the user stack, what a clone copies of its
-- maker besides its place among the processes, priorities, program loading, the reading of
-- directories, the mounting of the file systems at the start, the files of the system, the other
-- drivers, the interrupt controllers, the dispatch of system calls and those that are not on files,
-- and the network stack, the virtio support, the loggers and the build tool, which drive hardware
-- or other crates. Of common/vfs2, a copy of common/vfs, only what differs is modelled. The inode
-- operations of a pipe that only answer `NoSys` are left out.
pub mod Prelude
pub mod Task
pub mod Drivers
pub mod Generic
pub mod Vfs
pub mod Syscall
pub mod Sched
