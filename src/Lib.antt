-- ===== src/Lib.antt =====
-- Procstar runs processes on a host: it starts them from declarative specs, wires their file descriptors,
-- watches them, and reports their results to a server over a websocket (as an agent), over HTTP, or on its
-- command line. This library models the Rust program of the repository, src/*.rs and src/systemd/*.rs.
--
-- The parts, and how they interact. A request to start processes comes as a set of specs (Spec, from
-- src/spec.rs). `start_procs` (Procs.Start, Procs.Child, from src/procs.rs) checks it against the process
-- table and by `validate_procs_fds` (Spec.Validate), makes the handlers of the descriptors (Fd, Fd.Pipes,
-- Fd.Handlers, Fd.Child, from src/fd.rs), builds the environment (Environ, from src/environ.rs), forks, puts
-- the child into a systemd scope (Spec.Properties) and registers the process in the table (Procs.Table),
-- which tells its subscribers. A task waits for the process (Procs.Running, woken as Procs.Sigchld says, from
-- src/sig.rs) and finalizes its systemd units (Procs.Units), with the client of systemd (Systemd, from
-- src/systemd/api.rs). The child reports its errors over a pipe (ErrPipe and ErrPipe.Ends, from
-- src/err_pipe.rs, over Fdio, from src/fdio.rs). An agent (Agent, Agent.Connect, Agent.Session, Agent.Loop,
-- from src/agent.rs) handles the messages of its server (Message, Proto, from src/proto.rs) and sends it the
-- notifications of the table. The HTTP service (Http, Http.Router, Http.Handlers, and Http.Service for its
-- loop, from src/http.rs) works on the same table. Fd.Wired and Procs.Rewiring say what the handlers are
-- there for in the child. Procs.Lifecycle describes the table abstractly, by its notifications; Procs.Waiting
-- has the tasks that wait for them, and Shutdown.Signals the signal handlers (src/shutdown.rs) that wait. A
-- result (Res, from src/res.rs; Procs.Proc) is made from a process, its descriptors and captured files
-- (Sys.Files, and Sys.Wait for the wait loop, from src/sys.rs, with the wrappers of single calls in
-- Sys.Calls), from /proc (Procinfo.Stat and Procinfo.Statm, from src/procinfo.rs) and from the files of a
-- cgroup (Cgroup.Files, from src/systemd/cgroup.rs). Main has the start of the program, its servers, and the
-- ways in which it runs until it exits (Main.Startup, Main.Servers, from src/main.rs and src/argv.rs).
--
-- How the code is rendered. A struct is a record and an enum a data type. The table that all tasks share is
-- the record `Procs`, passed through every operation; a process is on a heap, since tasks refer to it after
-- it has left the table. Asynchronous code is a sequence of steps: what happens between two of them is an
-- argument, a list of changes (`Procs.Changes.Op`) or of events (`Agent.Session.Event`, and
-- `Procs.Waiting.Event`, where the receipts of a waiting task and the changes of others take turns). A panic
-- is an outcome of its own (`Exec`, `Outcome`). What the system, systemd, the C library and third-party
-- crates answer is an argument of the definitions. `u64` and `usize` are natural numbers, and signed integers
-- ℤ, with the wrap-around of a cast written out. A `BTreeMap` is an association list in the order of its
-- keys; of a `HashSet` only its members matter, and the one that is picked is an argument.
--
-- Fuel: `check_idling` and `set_shutdown` call each other and take two rounds at most. All other loops are
-- structural: over the specs, the table, the events of a connection, the wakes of a task, the turns of a
-- wait, or the columns and lines of a file. The budget of `finalize_units` is a number of calls; a round
-- takes five of them at most. Reading the error pipe takes a pass for every two bytes at most, and is given
-- one for every byte.
--
-- Not modelled: JSON, MessagePack and D-Bus encodings, TLS, logging, the interfaces of systemd that zbus
-- makes proxies from (src/systemd/manager.rs, unit.rs, slice.rs and scope.rs, declarations without code of
-- their own), the reading of certificates (src/net.rs), and of the main program the parsing of the command
-- line by clap and the joining of its tasks. Tasks that start_procs spawns are values; its interleaving with
-- other tasks at its awaits is left out. A request over HTTP that panics ends the run of the model, where in
-- the program it ends only the task of its connection.
--
-- Prelude holds what the modules share; Tests applies the theorems to concrete inputs.
pub mod Prelude
pub mod Io
pub mod Sig
pub mod State
pub mod Shutdown
pub mod Procinfo
pub mod Cgroup
pub mod Res
pub mod Spec
pub mod Systemd
pub mod Message
pub mod Err
pub mod ErrPipe
pub mod Sys
pub mod Fd
pub mod Fdio
pub mod Procs
pub mod Environ
pub mod Proto
pub mod Agent
pub mod Tests
pub mod Http
pub mod Main
