-- ===== src/Procs/Reaped.antt =====
-- A process that has ended is recorded, since no SIGCHLD is lost on the way to its task.
use procstar.Procs.Proc.{Proc}
use procstar.Procs.Noticed.{Noticed}
