-- ===== src/Pexpect/Lifecycle/Signals.antt =====
-- The signals that `kill` and `terminate` send.
use mathlib.Core.List.{Sublist}
use custom_shell.Prelude.{
  ℕ, Bool, true, false, List, [], ◌∷◌, ◌++◌, Option, none, some, ◌≡◌, refl, if◌then◌else◌, ◌==◌,
  append-nil, not,
}
use custom_shell.Python.Exec.{Exn, os_error, pexpect_error, pure, ◌>>=◌, ◌>>◌}
use custom_shell.Pexpect.Machine.{Machine, self}
use custom_shell.Pexpect.Kernel.{sleep, w_if_exited, w_if_signaled, w_if_stopped}
use custom_shell.Pexpect.Kernel.Sends.{
  Sends, Sends-pure, Sends-raise, Sends-if, Sends-catch, Sends-bind, Sends-quiet_first,
  set_self-quiet, self-quiet, waitpid-quiet, sleep-quiet, os_kill-Sends,
}
use custom_shell.Pexpect.Lifecycle.{
  sighup, sigint, sigkill, sigcont, record_status, on_wait_error, poll, conclude, again, isalive,
  kill, attempt, attempts, on_kill_error, terminate,
}

record_status-quiet : (status : ℕ) → Sends [] (record_status status)
unfolding record_status
record_status-quiet status = Sends-if [] (w_if_exited status) _ _ (set_self-quiet _) (
    Sends-if [] (w_if_signaled status) _ _ (set_self-quiet _)
      (Sends-if [] (w_if_stopped status) _ _ (Sends-raise [] pexpect_error) (Sends-pure [] tt)))

on_wait_error-quiet : (e : Exn) → Sends [] (on_wait_error e)
unfolding on_wait_error
on_wait_error-quiet (os_error errno) =
    Sends-if [] (errno == 10) _ _ (Sends-raise [] pexpect_error) (Sends-raise [] (os_error errno))
on_wait_error-quiet e = Sends-raise [] e

poll-quiet : (blocking : Bool) → Sends [] (poll blocking)
unfolding poll
poll-quiet blocking = Sends-catch [] [] _ _ (waitpid-quiet blocking) on_wait_error-quiet

conclude-quiet : (found : Option ℕ) → Sends [] (conclude found)
unfolding conclude
conclude-quiet none = Sends-pure [] true
conclude-quiet (some status) =
    Sends-quiet_first [] _ _ (record_status-quiet status) (λ _. Sends-pure [] false)

again-quiet : (blocking : Bool) (found : Option ℕ) → Sends [] (again blocking found)
unfolding again
again-quiet blocking none = Sends-quiet_first [] _ _ (poll-quiet blocking) conclude-quiet
again-quiet blocking (some status) = conclude-quiet (some status)

pub isalive-quiet : Sends [] isalive
unfolding isalive
isalive-quiet = Sends-quiet_first [] _ _ self-quiet (λ s.
    Sends-if [] s.terminated _ _ (Sends-pure [] false)
      (Sends-quiet_first [] _ _ (poll-quiet s.flag_eof) (again-quiet s.flag_eof)))

pub kill-Sends : (sig : ℕ) → Sends (sig ∷ []) (kill sig)
unfolding kill
kill-Sends sig =
    Sends-quiet_first (sig ∷ []) _ _ isalive-quiet
      (λ alive. Sends-if (sig ∷ []) alive _ _ (os_kill-Sends sig) (Sends-pure (sig ∷ []) tt))

-- After a delay, whether the child is gone.
look-quiet : Sends [] (do s ← self; sleep s.delayafterterminate; alive ← isalive; pure (not alive))
look-quiet = Sends-quiet_first [] _ _ self-quiet (λ s.
    Sends-quiet_first [] _ _ (sleep-quiet s.delayafterterminate)
      (λ _. Sends-quiet_first [] _ _ isalive-quiet (λ alive. Sends-pure [] (not alive))))

attempt-Sends : (sig : ℕ) → Sends (sig ∷ []) (attempt sig)
unfolding attempt
attempt-Sends sig = Sends-bind (sig ∷ []) [] _ _ (kill-Sends sig) (λ _. look-quiet)

-- SIGHUP, SIGCONT and SIGINT, and SIGKILL if it is forced.
abbrev pub plan : Bool → List ℕ
plan false = sighup ∷ sigcont ∷ sigint ∷ []
plan true = sighup ∷ sigcont ∷ sigint ∷ sigkill ∷ []

abbrev last : Bool → List ℕ
last false = []
last true = sigkill ∷ []

attempts-Sends : (force : Bool) → Sends (plan force) (attempts force)
unfolding attempts
attempts-Sends force = rw (plan_parts force) (
    Sends-bind (sighup ∷ []) (sigcont ∷ sigint ∷ last force) _ _ (attempt-Sends sighup) (λ gone.
      Sends-if _ gone _ _ (Sends-pure _ true) (
        Sends-bind (sigcont ∷ []) (sigint ∷ last force) _ _ (attempt-Sends sigcont) (λ gone.
          Sends-if _ gone _ _ (Sends-pure _ true) (
            Sends-bind (sigint ∷ []) (last force) _ _ (attempt-Sends sigint)
              (λ gone. Sends-if _ gone _ _ (Sends-pure _ true) (final force)))))))
  where
    plan_parts : (b : Bool) → plan b ≡ sighup ∷ sigcont ∷ sigint ∷ last b
    plan_parts true = refl
    plan_parts false = refl

    final : (b : Bool) → Sends (last b) (if b then attempt sigkill else pure false)
    final true = attempt-Sends sigkill
    final false = Sends-pure [] false

on_kill_error-quiet : (e : Exn) → Sends [] (on_kill_error e)
unfolding on_kill_error
on_kill_error-quiet (os_error errno) = look-quiet
on_kill_error-quiet e = Sends-raise [] e

terminate-plan : (force : Bool) → Sends (plan force) (terminate force)
unfolding terminate
terminate-plan force = Sends-quiet_first (plan force) _ _ isalive-quiet (λ alive.
    Sends-if (plan force) alive _ _
      (rw append-nil at
        (Sends-catch (plan force) [] _ _ (attempts-Sends force) on_kill_error-quiet))
      (Sends-pure (plan force) true))

-- However `terminate` ends, the signals that it has sent are SIGHUP, SIGCONT, SIGINT and, only if
-- `force` is true, SIGKILL, each at most once and in this order, some of them left out.
pub terminate-Sends :
    (force : Bool) (m : Machine)
    → (k : List ℕ) × ((terminate force m).1.world.signals ≡ m.world.signals ++ k)
      × Sublist k (plan force)
terminate-Sends force m = (terminate-plan force).at m
