-- ===== src/Procs.antt =====
-- src/procs.rs: the processes of an agent. `SharedProc` is a reference into a heap, since a task goes on
-- with its process when the process has left the table; `SharedProcs` is the one `Procs` that all share.
-- Instants and times are numbers of nanoseconds.
pub mod Proc
pub mod Table
pub mod Changes
pub mod Idling
pub mod Following
pub mod Evolving
pub mod Lifecycle
pub mod Refined
pub mod Removal
pub mod Units
pub mod Finalize
pub mod Start
pub mod Returned
pub mod Started
pub mod Looped
pub mod Returns
pub mod Waiting
pub mod Growing
pub mod Unread
pub mod Alert
pub mod Woken
pub mod Moments
pub mod Empty
pub mod Running
pub mod Sigchld
pub mod Noticed
pub mod Reaped
pub mod Child
pub mod Rewiring
pub mod Wired
