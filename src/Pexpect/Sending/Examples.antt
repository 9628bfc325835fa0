-- ===== src/Pexpect/Sending/Examples.antt =====
-- Texts that are sent, and the theorems at concrete inputs.
use custom_shell.Prelude.{[], codes, some, ◌≡◌, refl, true}
use custom_shell.Python.Exec.Triple.{Post}
use custom_shell.Pexpect.Lifecycle.Examples.{machine}
use custom_shell.Pexpect.Sending.{sendline, control_byte}
use custom_shell.Pexpect.Sending.Writes.{LineSent, LineFailed, sendline-Writes}

-- The documentation's example: Ctrl-G is ASCII 7.
ctrl_g : control_byte b'g' ≡ some 7
unfolding control_byte
ctrl_g = refl

sendline-Writes_example :
    Post
      (LineSent (machine.world.writes ≡ []) [] true (codes "jobs"))
      (LineFailed (machine.world.writes ≡ []) [] true (codes "jobs"))
      (sendline (codes "jobs") machine).0
      (sendline (codes "jobs") machine).1
sendline-Writes_example = sendline-Writes (codes "jobs") machine
