-- ===== src/ProcCheck/Foreground.antt =====
-- `wait_until_child_is_in_foreground` of pexpect-dpty/proc_check.py.
use custom_shell.Prelude.{
  ℕ, ◌==◌, Bool, true, false, List, [], ◌∷◌, Option, none, some, if◌then◌else◌,
}
use custom_shell.Prelude.Int.{ℤ, pos, ◌+ℤ◌, ◌-ℤ◌, is_negative}
use custom_shell.Python.Exec.{Outcome, ok, raised, blocked, Exn, assertion_error, type_error}
use custom_shell.Pexpect.Reading.{or_default}
use custom_shell.ProcCheck.{Stats, check_foreground_process}

-- A round of the loop: what `os.tcgetpgrp` answers, and the clock after the sleep.
pub record Round : Type 0 where
  pub pgrp : ℕ
  pub clock : ℕ

-- `timeout = end_time - time.time()`, and whether it is negative.
abbrev pub is_late : ℤ → ℕ → Bool
is_late end_time clock = is_negative (end_time -ℤ pos clock)

-- The loop: the rounds that are left when the terminal has another owner than the shell. Where the
-- rounds end before, the call goes on.
pub wait_loop : ℕ → ℤ → List Round → Outcome (List Round)
wait_loop shell end_time [] = blocked
wait_loop shell end_time (r ∷ rounds) =
    let rest = wait_loop shell end_time rounds in
    if r.pgrp == shell
    then (if is_late end_time r.clock then raised Exn.timeout else rest)
    else ok rounds

assert_true : Outcome Bool → Outcome (Unit {0})
assert_true (ok true) = ok tt
assert_true (ok false) = raised assertion_error
assert_true (raised e) = raised e
assert_true blocked = blocked

-- `os.tcgetpgrp` is asked again behind the loop.
check_owner : Stats → ℕ → Outcome (List Round) → Outcome (Unit {0})
unfolding assert_true check_foreground_process
check_owner stats shell (ok []) = blocked
check_owner stats shell (ok (r ∷ rounds)) =
    assert_true (check_foreground_process stats shell r.pgrp)
check_owner stats shell (raised e) = raised e
check_owner stats shell blocked = blocked

-- The deadline: `time.time() + pexpect_mod.timeout`, unless the timeout is `None`.
end_of_wait : Option ℤ → ℕ → Option ℤ → Outcome (Option ℤ)
end_of_wait none start default = ok none
end_of_wait (some t) start none = raised type_error
end_of_wait (some t) start (some d) = ok (some (pos start +ℤ d))

-- A tab stands for eight blanks, so that the loop and the check belong to the branch `timeout is not
-- None`: with `None`, nothing is waited for.
wait_from : Stats → ℕ → List Round → Outcome (Option ℤ) → Outcome (Unit {0})
unfolding wait_loop check_owner
wait_from stats shell rounds (ok none) = ok tt
wait_from stats shell rounds (ok (some end_time)) =
    check_owner stats shell (wait_loop shell end_time rounds)
wait_from stats shell rounds (raised e) = raised e
wait_from stats shell rounds blocked = blocked

-- `default` is `pexpect_mod.timeout`, and `start` the clock at the start.
unfoldable pub wait_until_child_is_in_foreground :
    Stats → ℕ → Option ℤ → ℕ → List Round → Option ℤ → Outcome (Unit {0})
unfolding wait_from end_of_wait
wait_until_child_is_in_foreground stats shell default start rounds timeout =
    wait_from stats shell rounds (end_of_wait (or_default timeout default) start default)
