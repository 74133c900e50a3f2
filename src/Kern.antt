-- ===== src/Kern.antt =====
-- The kernel, kern/: physical pages and page tables, environments, the scheduler and system calls.
pub mod Pmap
pub mod Paging
pub mod EntryPgdir
pub mod Env
pub mod Sched
pub mod UserMem
pub mod Boot
pub mod Kdebug
pub mod Lock
pub mod Console
pub mod Keyboard
pub mod Syscall
pub mod Ipc
pub mod Destroy
pub mod Trap
