-- ===== src/Scripts/Performed.antt =====
-- A script passes only where all it awaits has come in order, and stops at the first call that fails.
use custom_shell.Python.Exec.Triple.{Triple}
use custom_shell.Pexpect.Machine.{Machine}
