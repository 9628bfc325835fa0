-- ===== src/Pexpect/Lifecycle/Frame.antt =====
-- What `record_status` keeps of the attributes, `isalive`, `kill` and `terminate` keep.
use custom_shell.Prelude.{ℕ, Bool, true, false, Option, none, some}
use custom_shell.Python.Exec.{Exn, attribute_error}
use custom_shell.Python.Exec.Keeps.{Keeps-bind, Keeps-if, Keeps-pure, Keeps-catch}
use custom_shell.Pexpect.Machine.{Spawn, self}
use custom_shell.Pexpect.Kernel.Frame.{Leaves, self-Leaves, set_self-Leaves, kernel_rules}
use custom_shell.Pexpect.Lifecycle.{
  record_status, on_wait_error, poll, conclude, again, isalive, kill, attempt, attempts,
  on_kill_error, terminate, stop_thread, terminate_if, finish_close, close, on_missing, delete,
}

module _ {Q : Spawn → Type 0} where
  on_wait_error-Leaves : (e : Exn) → Leaves Q (on_wait_error e)
  unfolding on_wait_error
  on_wait_error-Leaves (Exn.os_error errno) = search kernel_rules
  on_wait_error-Leaves _ = search kernel_rules

  pub poll-Leaves : (blocking : Bool) → Leaves Q (poll blocking)
  unfolding poll
  poll-Leaves blocking = search (kernel_rules, on_wait_error-Leaves)

module _ {Q : Spawn → Type 0} (recording : (status : ℕ) → Leaves Q (record_status status)) where
  conclude-Leaves : (found : Option ℕ) → Leaves Q (conclude found)
  unfolding conclude
  conclude-Leaves none = search kernel_rules
  conclude-Leaves (some status) = search (kernel_rules, recording)

  again-Leaves : (blocking : Bool) (found : Option ℕ) → Leaves Q (again blocking found)
  unfolding again
  again-Leaves blocking none = search (kernel_rules, poll-Leaves, conclude-Leaves)
  again-Leaves blocking (some status) = search (kernel_rules, conclude-Leaves)

  pub isalive-Leaves : Leaves Q isalive
  unfolding isalive
  isalive-Leaves = search (kernel_rules, poll-Leaves, again-Leaves)

-- What `isalive` keeps, the other methods keep, where they change nothing of it themselves.
module _ {Q : Spawn → Type 0} (looking : Leaves Q isalive) where
  pub kill-Leaves : (sig : ℕ) → Leaves Q (kill sig)
  unfolding kill
  kill-Leaves sig = search kernel_rules

  attempt-Leaves : (sig : ℕ) → Leaves Q (attempt sig)
  unfolding attempt
  attempt-Leaves sig = search (kernel_rules, kill-Leaves)

  attempts-Leaves : (force : Bool) → Leaves Q (attempts force)
  unfolding attempts
  attempts-Leaves force = search (kernel_rules, attempt-Leaves) depth 9

  on_kill_error-Leaves : (e : Exn) → Leaves Q (on_kill_error e)
  unfolding on_kill_error
  on_kill_error-Leaves (Exn.os_error errno) = search kernel_rules
  on_kill_error-Leaves _ = search kernel_rules

  pub terminate-Leaves : (force : Bool) → Leaves Q (terminate force)
  unfolding terminate
  terminate-Leaves force = search (kernel_rules, attempts-Leaves, on_kill_error-Leaves)

  stop_thread-Leaves :
      ((s : Spawn) → Q s → Q (record s { keep_reading = false })) → Leaves Q stop_thread
  unfolding stop_thread
  stop_thread-Leaves k =
      Keeps-bind self _ self-Leaves
        (λ s. Keeps-if s.drainpty _ _ (set_self-Leaves _ k) (Keeps-pure tt))

  terminate_if-Leaves : (alive force : Bool) → Leaves Q (terminate_if alive force)
  unfolding terminate_if
  terminate_if-Leaves alive force = search (kernel_rules, terminate-Leaves)

  finish_close-Leaves :
      ((s : Spawn) → Q s → Q (record s { child_fd = none; closed = true }))
      → (gone : Bool) → Leaves Q (finish_close gone)
  unfolding finish_close
  finish_close-Leaves k gone = Keeps-if gone _ _ (set_self-Leaves _ k) (search kernel_rules)

  on_missing-Leaves : (e : Exn) → Leaves Q (on_missing e)
  unfolding on_missing
  on_missing-Leaves attribute_error = search kernel_rules
  on_missing-Leaves _ = search kernel_rules

  module _ (stopping : (s : Spawn) → Q s → Q (record s { keep_reading = false }))
      (closing : (s : Spawn) → Q s → Q (record s { child_fd = none; closed = true })) where
    pub close-Leaves : (force : Bool) → Leaves Q (close force)
    unfolding close
    close-Leaves force = Keeps-bind self _ self-Leaves (λ s. Keeps-if s.closed _ _ (Keeps-pure tt) (
        Keeps-bind stop_thread _ (stop_thread-Leaves stopping)
          (λ _. search (kernel_rules, terminate_if-Leaves, finish_close-Leaves closing))))

    pub delete-Leaves : Leaves Q delete
    unfolding delete
    delete-Leaves = Keeps-bind self _ self-Leaves (λ s.
        Keeps-if s.closed _ _ (Keeps-pure tt)
          (Keeps-catch (close true) on_missing (close-Leaves true) on_missing-Leaves))
