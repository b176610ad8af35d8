-- ===== src/Task/Fd.antt =====
-- The descriptor table of a task: `FdManager` of common/task/task/src/resource.rs, the methods of
-- `Task` over it and the calls of common/task/task/src/syscall/fs.rs and lib.rs. A `ShimFile` is the
-- inode id that it holds. The user memory that `do_pipe2` writes to is a parameter.
pub mod Calls
pub mod Table
