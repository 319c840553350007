-- ===== src/Sys.antt =====
-- Parts of src/sys.rs: reading captured output back from an unlinked file, and waiting for the end of a
-- process. A file that only its descriptor names is its contents, in a table of the open descriptors.
pub mod Files
pub mod Wait
pub mod Calls
pub mod Cloexec
