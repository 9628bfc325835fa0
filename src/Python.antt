-- ===== src/Python.antt =====
-- What the program uses of Python's own types and library.
pub mod Text
pub mod Regex
pub mod Exec
