-- ===== src/Pexpect/Terminal/Examples.antt =====
-- The theorems on a concrete terminal.
use custom_shell.Prelude.{[], false, ◌≡◌}
use custom_shell.Python.Exec.{ok}
use custom_shell.Pexpect.Terminal.{Terminal, setecho}
use custom_shell.Pexpect.Terminal.Echo.{IsEchoSet, setecho-IsEchoSet}
use custom_shell.Pexpect.Terminal.Window.{Resized, setwinsize-Resized}

abbrev terminal : Terminal
terminal = record { local_flags = 35387; window = [] }

setecho-IsEchoSet_example :
    ((setecho false terminal).0 ≡ ok tt) × IsEchoSet false terminal (setecho false terminal).1
setecho-IsEchoSet_example = setecho-IsEchoSet false terminal

setwinsize-Resized_example : Resized 24 200 terminal
setwinsize-Resized_example = setwinsize-Resized 24 200 terminal
