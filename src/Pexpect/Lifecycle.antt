-- ===== src/Pexpect/Lifecycle.antt =====
-- `isalive`, `kill`, `terminate`, `wait` and `close` of `spawn` in pexpect-dpty/pexpect.py; the
-- proofs are in the modules below this one.
pub mod Frame
pub mod Apart
pub mod Waited
pub mod Status
pub mod Ages
pub mod Verdict
pub mod Signals
pub mod Examples
use custom_shell.Prelude.{ℕ, Bool, true, false, Option, none, some, not, ◌==◌, if◌then◌else◌}
use custom_shell.Python.Exec.{
  Exn, os_error, pexpect_error, attribute_error, pure, raise, catch, ◌>>=◌, ◌>>◌,
}
use custom_shell.Pexpect.Machine.{M, self, set_self}
use custom_shell.Pexpect.Kernel.{
  w_if_exited, w_exit_status, w_if_signaled, w_term_sig, w_if_stopped, waitpid, os_kill, os_close,
  sleep,
}

abbrev pub sighup : ℕ
sighup = 1

abbrev pub sigint : ℕ
sigint = 2

abbrev pub sigkill : ℕ
sigkill = 9

abbrev pub sigcont : ℕ
sigcont = 18

-- The branches on the status that `isalive` and `wait` share.
unfoldable pub record_status : ℕ → M (Unit {0})
unfolding set_self raise
record_status status =
    if w_if_exited status
    then set_self (λ s. record s {
      status = some status;
      exitstatus = some (w_exit_status status);
      signalstatus = none;
      terminated = true;
    })
    else if w_if_signaled status
    then set_self (λ s. record s {
      status = some status;
      exitstatus = none;
      signalstatus = some (w_term_sig status);
      terminated = true;
    })
    else if w_if_stopped status
    then raise pexpect_error
    else pure tt

-- `except OSError`: ECHILD becomes an `ExceptionPexpect`, any other error is raised again.
pub on_wait_error : Exn → M (Option ℕ)
on_wait_error (os_error errno) = if errno == 10 then raise pexpect_error else raise (os_error errno)
on_wait_error e = raise e

pub poll : Bool → M (Option ℕ)
unfolding on_wait_error waitpid catch
poll blocking = catch (waitpid blocking) on_wait_error

pub conclude : Option ℕ → M Bool
unfolding record_status
conclude none = pure true
conclude (some status) = do record_status status; pure false

-- The call is made twice where the first one reports nothing.
pub again : Bool → Option ℕ → M Bool
unfolding poll conclude
again blocking (some status) = conclude (some status)
again blocking none = do second ← poll blocking; conclude second

unfoldable pub isalive : M Bool
unfolding again poll self ◌>>=◌
isalive = do
  s ← self
  if s.terminated then pure false else do first ← poll s.flag_eof; again s.flag_eof first

unfoldable pub kill : ℕ → M (Unit {0})
unfolding isalive os_kill
kill sig = do alive ← isalive; if alive then os_kill sig else pure tt

-- One signal of `terminate`, the delay, and whether the child is gone.
attempt : ℕ → M Bool
unfolding kill sleep self isalive
attempt sig = do kill sig; s ← self; sleep s.delayafterterminate; alive ← isalive; pure (not alive)

attempts : Bool → M Bool
unfolding attempt
attempts force = do
  gone ← attempt sighup
  if gone then pure true else do
    gone ← attempt sigcont
    if gone then pure true else do
      gone ← attempt sigint
      if gone then pure true else if force then attempt sigkill else pure false

-- `except OSError`: one last look after the delay.
on_kill_error : Exn → M Bool
unfolding sleep self isalive
on_kill_error (os_error errno) = do
  s ← self
  sleep s.delayafterterminate
  alive ← isalive
  pure (not alive)
on_kill_error e = raise e

unfoldable pub terminate : Bool → M Bool
unfolding attempts on_kill_error isalive catch
terminate force = do
  alive ← isalive
  if alive then catch (attempts force) on_kill_error else pure true

-- `wait` sets `exitstatus` before it looks at the kind of the status.
finish_wait : Option ℕ → M (Option ℕ)
unfolding record_status set_self self
finish_wait none = pure none
finish_wait (some status) = do
  set_self (λ s. record s { exitstatus = some (w_exit_status status) })
  record_status status
  s ← self
  pure s.exitstatus

unfoldable pub wait : M (Option ℕ)
unfolding isalive waitpid finish_wait
wait = do alive ← isalive; if alive then waitpid true >>= finish_wait else raise pexpect_error

-- `if self.drainpty: self.drainpty_thread.stop()`
stop_thread : M (Unit {0})
unfolding set_self self
stop_thread = do
  s ← self
  if s.drainpty then set_self (λ s. record s { keep_reading = false }) else pure tt

terminate_if : Bool → Bool → M Bool
unfolding terminate
terminate_if alive force = if alive then terminate force else pure true

finish_close : Bool → M (Unit {0})
unfolding set_self
finish_close gone =
    if gone
    then set_self (λ s. record s { child_fd = none; closed = true })
    else raise pexpect_error

unfoldable pub close : Bool → M (Unit {0})
unfolding os_close sleep isalive terminate_if finish_close stop_thread self
close force = do
  s ← self
  if s.closed then pure tt else do
    stop_thread
    os_close
    sleep s.delayafterclose
    alive ← isalive
    gone ← terminate_if alive force
    finish_close gone

-- `except AttributeError: pass`
on_missing : Exn → M (Unit {0})
on_missing attribute_error = pure tt
on_missing e = raise e

-- `__del__`
unfoldable pub delete : M (Unit {0})
unfolding close on_missing self catch
delete = do s ← self; if s.closed then pure tt else catch (close true) on_missing
