-- ===== src/Pexpect.antt =====
-- pexpect-dpty/pexpect.py: the customised pexpect through which the tests drive the shell.
pub mod CommandLine
pub mod Which
pub mod Searcher
pub mod SearcherRe
pub mod Machine
pub mod Kernel
pub mod Lifecycle
pub mod Reading
pub mod Expect
pub mod Patterns
pub mod Streams
pub mod Sending
pub mod Draining
pub mod Dialogue
pub mod Session
pub mod Starting
pub mod ForkPty
pub mod Terminal
pub mod Running
