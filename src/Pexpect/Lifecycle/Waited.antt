-- ===== src/Pexpect/Lifecycle/Waited.antt =====
-- `wait` goes on only where `isalive` has found the child running.
use custom_shell.Prelude.{ℕ, Bool, true, false, Option, none, some, ◌≡◌, ap, ◌∙◌, if◌then◌else◌}
use custom_shell.Python.Exec.{
  Outcome, ok, raised, blocked, pexpect_error, ◌>>=◌, ◌>>◌, pure, raise, continue,
}
use custom_shell.Pexpect.Machine.{Spawn, Machine, self}
use custom_shell.Pexpect.Kernel.{w_exit_status, waitpid}
use custom_shell.Pexpect.Kernel.Frame.{Leaves, kernel_rules, waitpid-Leaves}
use custom_shell.Pexpect.Lifecycle.{record_status, isalive, finish_wait, wait}
use custom_shell.Pexpect.Lifecycle.Frame.{isalive-Leaves}
use custom_shell.Pexpect.Lifecycle.Verdict.{Verdict, isalive-Verdict}

-- A child that is not known to have ended.
abbrev IsRunning : Spawn → Type 0
IsRunning s = s.terminated ≡ false

module _ {Q : Spawn → Type 0} (recording : (status : ℕ) → Leaves Q (record_status status))
    (running : (s : Spawn) → IsRunning s → Q s) where
  -- From a running child `wait` sets `exitstatus` first, and then the rest.
  finish_wait-Leaves :
      (found : Option ℕ) (m : Machine) → IsRunning m.self → Q (finish_wait found m).1.self
  unfolding finish_wait pure ◌>>=◌
  finish_wait-Leaves none m r = running m.self r
  finish_wait-Leaves (some status) m r =
      rest.at (record m { self = record m.self { exitstatus = some (w_exit_status status) } })
        (running (record m.self { exitstatus = some (w_exit_status status) }) r)
    where
      rest : Leaves Q (do record_status status; s ← self; pure s.exitstatus)
      rest = search (kernel_rules, recording)

  waited-Leaves :
      (o : Outcome (Option ℕ)) (m : Machine)
      → IsRunning m.self
      → Q (continue o finish_wait m).1.self
  waited-Leaves (ok found) m r = finish_wait-Leaves found m r
  waited-Leaves (raised e) m r = running m.self r
  waited-Leaves blocked m r = running m.self r

  -- Behind `isalive`.
  alive-Leaves :
      (m : Machine) (o : Outcome Bool) (n : Machine)
      → Verdict m o n
      → Q n.self
      → Q
          (continue o
            (λ alive. if alive then waitpid true >>= finish_wait else raise pexpect_error)
            n).1.self
  unfolding ◌>>=◌
  alive-Leaves m (ok true) n v k =
      waited-Leaves (waitpid true n).0 (waitpid true n).1
        ((waitpid-Leaves {Q = IsRunning} true).at n (ap (λ (s : Spawn). s.terminated) v.0 ∙ v.1))
  alive-Leaves m (ok false) n v k = k
  alive-Leaves m (raised e) n v k = k
  alive-Leaves m blocked n v k = k

  pub wait-Leaves : Leaves Q wait
  unfolding wait ◌>>=◌
  wait-Leaves = record {
    at = λ m h.
        alive-Leaves m (isalive m).0 (isalive m).1 (isalive-Verdict m)
          ((isalive-Leaves recording).at m h);
  }
