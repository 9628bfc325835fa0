-- ===== src/ProcCheck/Examples.antt =====
-- Small /proc directories, and the theorems on them.
use custom_shell.Prelude.{
  List, [], ◌∷◌, Bytes, codes, none, some, ◌==◌, if◌then◌else◌, true, ◌≡◌, refl,
}
use custom_shell.Prelude.Int.{pos}
use custom_shell.Python.Exec.{ok}
use custom_shell.ProcCheck.{
  Stats, check_pid_fgpgrp, check_pid_status, count_active_children, count_children_timeout,
  check_foreground_process,
}
use custom_shell.ProcCheck.Foreground.{Round, wait_until_child_is_in_foreground}
use custom_shell.ProcCheck.Counting.{Counted, count_children_timeout-Counted}

-- The shell has pid 7; process 12 is its child and owns the terminal.
abbrev stats : Stats
stats pid =
    if pid == 12
    then some (codes "12 (sleep) S 7 12 7 34816 12 4194304\n")
    else if pid == 7
    then some (codes "7 (cush) S 1 7 7 34816 12 4194304\n")
    else none

abbrev names : List Bytes
names = codes "7" ∷ codes "12" ∷ codes "self" ∷ codes "13" ∷ []

in_foreground : check_pid_fgpgrp stats 12 ≡ ok true
unfolding check_pid_fgpgrp
in_foreground = refl

sleeping : check_pid_status stats 12 (codes "S") ≡ ok true
unfolding check_pid_status
sleeping = refl

owns : check_foreground_process stats 7 12 ≡ ok true
unfolding check_foreground_process
owns = refl

one_child : count_active_children stats 7 names (pos 1) ≡ ok tt
unfolding count_active_children
one_child = refl

seen_twice :
    count_children_timeout
      (some (pos 1))
      none
      7
      (record { names = names; stats = stats } ∷ record { names = names; stats = stats } ∷ [])
      (pos 1)
    ≡ ok (12 ∷ [])
unfolding count_children_timeout
seen_twice = refl

count_children_timeout-Counted_example : Counted (some (pos 1)) none (pos 1) (
    count_children_timeout
      (some (pos 1))
      none
      7
      (record { names = names; stats = stats } ∷ [])
      (pos 1))
count_children_timeout-Counted_example =
    count_children_timeout-Counted (some (pos 1)) none 7
      (record { names = names; stats = stats } ∷ []) (pos 1)

-- The terminal changes hands in the second round.
abbrev rounds : List Round
rounds =
    record { pgrp = 7; clock = 10 }
    ∷ record { pgrp = 12; clock = 20 }
    ∷ record { pgrp = 12; clock = 30 }
    ∷ []

taken_over :
    wait_until_child_is_in_foreground stats 7 (some (pos 100)) 0 rounds (some (pos 5)) ≡ ok tt
unfolding wait_until_child_is_in_foreground
taken_over = refl

-- Without a timeout nothing is waited for.
no_wait : wait_until_child_is_in_foreground stats 7 (some (pos 100)) 0 rounds none ≡ ok tt
unfolding wait_until_child_is_in_foreground
no_wait = refl
