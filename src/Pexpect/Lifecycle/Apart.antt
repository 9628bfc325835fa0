-- ===== src/Pexpect/Lifecycle/Apart.antt =====
-- `isalive` touches nothing of the world but the answers to `waitpid`.
use custom_shell.Prelude.{ℕ, Bool, List, Option, none, some}
use custom_shell.Python.Exec.{Exn}
use custom_shell.Pexpect.Machine.{Wait, World}
use custom_shell.Pexpect.Kernel.{w_if_exited, w_if_signaled, w_if_stopped}
use custom_shell.Pexpect.Kernel.Apart.{Spares, apart_rules, waitpid-Spares}
use custom_shell.Pexpect.Lifecycle.{record_status, on_wait_error, poll, conclude, again, isalive}

module _ {Q : World → Type 0}
    (free : (w : World) (ws : List Wait) → Q w → Q (record w { waits = ws })) where
  waiting-Spares : (blocking : Bool) → Spares Q (custom_shell.Pexpect.Kernel.waitpid blocking)
  waiting-Spares = waitpid-Spares free

  record_status-Spares : (status : ℕ) → Spares Q (record_status status)
  unfolding record_status
  record_status-Spares status = search apart_rules

  on_wait_error-Spares : (e : Exn) → Spares Q (on_wait_error e)
  unfolding on_wait_error
  on_wait_error-Spares (Exn.os_error errno) = search apart_rules
  on_wait_error-Spares _ = search apart_rules

  poll-Spares : (blocking : Bool) → Spares Q (poll blocking)
  unfolding poll
  poll-Spares blocking = search (apart_rules, waiting-Spares, on_wait_error-Spares)

  conclude-Spares : (found : Option ℕ) → Spares Q (conclude found)
  unfolding conclude
  conclude-Spares none = search apart_rules
  conclude-Spares (some status) = search (apart_rules, record_status-Spares)

  again-Spares : (blocking : Bool) (found : Option ℕ) → Spares Q (again blocking found)
  unfolding again
  again-Spares blocking none = search (apart_rules, poll-Spares, conclude-Spares)
  again-Spares blocking (some status) = search (apart_rules, conclude-Spares)

  pub isalive-Spares : Spares Q isalive
  unfolding isalive
  isalive-Spares = search (apart_rules, poll-Spares, again-Spares)
