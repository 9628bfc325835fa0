-- ===== src/ProcCheck.antt =====
-- pexpect-dpty/proc_check.py: the checks of processes through /proc. What is in /proc is an argument:
-- the names that `os.listdir` gives, and the first line of each `stat` file that can be opened.
pub mod Counting
pub mod Foreground
mod Examples
use custom_shell.Prelude.{
  ℕ, suc, ◌+◌, ◌*◌, ◌-◌, Bool, true, false, List, [], ◌∷◌, ◌++◌, Bytes, Option, none, some, ◌==◌,
  ◌&&◌, ◌||◌, not, leb, if◌then◌else◌, length, bytes_eq,
}
use custom_shell.Prelude.Int.{ℤ, pos, negsuc}
use custom_shell.Pexpect.Reading.{or_default}
use custom_shell.Python.Text.{is_space, is_digit}
use custom_shell.Python.Regex
use custom_shell.Python.Regex.{Regex, Match, byte, seq, some_of, group, literal, match, group_value}
use custom_shell.Python.Exec.{
  Outcome, ok, raised, Exn, os_error, type_error, value_error, assertion_error, attribute_error,
}

abbrev digits : Regex
digits = some_of (byte is_digit)

-- `\S`
abbrev dark : Regex
dark = byte (λ c. if is_space c then false else true)

-- `.`, which is no newline.
abbrev dot : Regex
dot = byte (λ c. if c == 10 then false else true)

abbrev blank : Regex
blank = byte (λ c. c == 32)

infixr 6 ◌⊳◌
abbrev ◌⊳◌ : Regex → Regex → Regex
r ⊳ q = seq r (seq blank q)

-- `\d+ \S+ . \d+ (\d+) \d+ \d+ (\d+)`
abbrev fgpgrp_regex : Regex
fgpgrp_regex =
    digits ⊳ some_of dark ⊳ dot ⊳ digits ⊳ group 1 digits ⊳ digits ⊳ digits ⊳ group 2 digits

-- `\d+ \S+ (.) \d+ \d+ \d+ \d+ \d+`
abbrev status_regex : Regex
status_regex = digits ⊳ some_of dark ⊳ group 1 dot ⊳ digits ⊳ digits ⊳ digits ⊳ digits ⊳ digits

-- `\d+ \S+ . (\d+)` and `(\d+) \S+ . (\d+)`
abbrev ppid_regex : Regex
ppid_regex = digits ⊳ some_of dark ⊳ dot ⊳ group 1 digits

abbrev pid_ppid_regex : Regex
pid_ppid_regex = group 1 digits ⊳ some_of dark ⊳ dot ⊳ group 2 digits

-- `\d+ \S+ . (\d+) (\d+) \d+ \d+ (\d+)`
abbrev owner_regex : Regex
owner_regex =
    digits ⊳ some_of dark ⊳ dot ⊳ group 1 digits ⊳ group 2 digits ⊳ digits ⊳ digits ⊳ group 3 digits

-- `int(…)` of a name in /proc or of digits; `none` is a `ValueError`.
digits_value : ℕ → Bytes → Option ℕ
digits_value n [] = some n
digits_value n (c ∷ s) = if is_digit c then digits_value (n * 10 + (c - 48)) s else none

unfoldable pub int_of : Bytes → Option ℕ
unfolding digits_value
int_of [] = none
int_of (c ∷ s) = digits_value 0 (c ∷ s)

-- The stat lines by pid; `none` is a file that cannot be opened.
abbrev pub Stats : Type 0
Stats = ℕ → Option Bytes

-- `grps.group(…)`, where `grps` may be `None`.
with_match : {A : Type 0} → Regex → Option Bytes → (Match → A) → Outcome A
unfolding Regex.match
with_match r none f = raised (os_error 2)
with_match r (some line) f = elim (Regex.match r line) [
  | none ↦ raised attribute_error
  | some m ↦ ok (f m)
]

unfoldable pub check_pid_fgpgrp : Stats → ℕ → Outcome Bool
unfolding with_match group_value
check_pid_fgpgrp stats pid =
    with_match fgpgrp_regex (stats pid)
      (λ m. bytes_eq (group_value 1 m.groups) (group_value 2 m.groups))

unfoldable pub check_pid_status : Stats → ℕ → Bytes → Outcome Bool
unfolding with_match group_value
check_pid_status stats pid pid_status =
    with_match status_regex (stats pid) (λ m. bytes_eq (group_value 1 m.groups) pid_status)

-- The body of the loop over `os.listdir("/proc/")`: is the process a child of the shell? Every
-- exception means that it is none.
is_child_line : ℕ → Outcome (Option ℕ) → Bool
is_child_line shell (ok (some ppid)) = ppid == shell
is_child_line shell _ = false

is_child_pid : Stats → ℕ → Option ℕ → Bool
unfolding with_match is_child_line int_of group_value
is_child_pid stats shell none = false
is_child_pid stats shell (some pid) =
    is_child_line shell (with_match ppid_regex (stats pid) (λ m. int_of (group_value 1 m.groups)))

unfoldable pub is_child : Stats → ℕ → Bytes → Bool
unfolding is_child_pid int_of
is_child stats shell name = is_child_pid stats shell (int_of name)

count_names : Stats → ℕ → List Bytes → ℕ → ℕ
unfolding is_child
count_names stats shell [] num_children_found = num_children_found
count_names stats shell (name ∷ names) num_children_found =
    count_names stats shell names
      (if is_child stats shell name then num_children_found + 1 else num_children_found)

-- The two assertions behind the loop, for an expected number that is not negative.
assert_count : {A : Type 0} → ℕ → ℕ → A → Outcome A
assert_count found expected a =
    if leb expected found
    then (if found == expected then ok a else raised assertion_error)
    else raised assertion_error

unfoldable pub count_active_children : Stats → ℕ → List Bytes → ℤ → Outcome (Unit {0})
unfolding count_names assert_count
count_active_children stats shell names (negsuc n) = raised assertion_error
count_active_children stats shell names (pos expected) =
    assert_count (count_names stats shell names 0) expected tt

-- One look of `count_children_timeout`: what /proc holds then.
pub record Look : Type 0 where
  pub names : List Bytes
  pub stats : Stats

-- `children_found.count(pid) == 0`, for the pid that the line itself gives.
abbrev pub has_pid : ℕ → List ℕ → Bool
has_pid pid [] = false
has_pid pid (q ∷ found) = pid == q || has_pid pid found

add_child : ℕ → Option ℕ → Option ℕ → List ℕ → List ℕ
add_child shell (some pid) (some ppid) found =
    if (ppid == shell && not (has_pid pid found)) then found ++ pid ∷ [] else found
add_child shell _ _ found = found

add_line : ℕ → Outcome (Option ℕ × Option ℕ) → List ℕ → List ℕ
unfolding add_child
add_line shell (ok p) found = add_child shell p.0 p.1 found
add_line shell _ found = found

add_name : ℕ → Stats → Option ℕ → List ℕ → List ℕ
unfolding add_line with_match int_of group_value
add_name shell stats none found = found
add_name shell stats (some pid) found =
    add_line shell
      (with_match pid_ppid_regex (stats pid)
        (λ m. (int_of (group_value 1 m.groups), int_of (group_value 2 m.groups))))
      found

add_names : ℕ → Stats → List Bytes → List ℕ → List ℕ
unfolding add_name int_of
add_names shell stats [] found = found
add_names shell stats (name ∷ names) found =
    add_names shell stats names (add_name shell stats (int_of name) found)

-- `looks` are the rounds of the loop that begin before the timeout ends. `num_children_found` is the
-- length of `children_found`, since both grow together.
add_looks : ℕ → List Look → List ℕ → List ℕ
unfolding add_names
add_looks shell [] found = found
add_looks shell (l ∷ looks) found = add_looks shell looks (add_names shell l.stats l.names found)

-- The loop has rounds only where the timeout is positive.
abbrev rounds_of : ℤ → List Look → List Look
rounds_of (pos (suc t)) looks = looks
rounds_of _ looks = []

count_looks : Option ℤ → ℕ → List Look → ℕ → Outcome (List ℕ)
unfolding add_looks assert_count
count_looks none shell looks expected = raised type_error
count_looks (some timeout) shell looks expected =
    let children_found = add_looks shell (rounds_of timeout looks) [] in
    assert_count (length children_found) expected children_found

-- The timeout `None` is refused; `default` is `pexpect_mod.timeout`, to which a number is added.
unfoldable pub count_children_timeout : Option ℤ → Option ℤ → ℕ → List Look → ℤ → Outcome (List ℕ)
unfolding count_looks
count_children_timeout none default shell looks expected = raised assertion_error
count_children_timeout (some timeout) default shell looks (negsuc n) = raised assertion_error
count_children_timeout (some timeout) default shell looks (pos expected) =
    count_looks (or_default (some timeout) default) shell looks expected

-- `check_foreground_process`: it is false where the stat file cannot be read.
owner_verdict : ℕ → Bytes → Bytes → Option ℕ → Outcome Bool
owner_verdict parent pgrp tpgid none = raised value_error
owner_verdict parent pgrp tpgid (some ppid) =
    if bytes_eq pgrp tpgid
    then (if ppid == parent then ok true else raised assertion_error)
    else raised assertion_error

on_owner : ℕ → Outcome Match → Outcome Bool
unfolding owner_verdict int_of group_value
on_owner parent (ok m) =
    owner_verdict parent (group_value 2 m.groups) (group_value 3 m.groups)
      (int_of (group_value 1 m.groups))
on_owner parent (raised (os_error errno)) = ok false
on_owner parent (raised e) = raised e
on_owner parent Outcome.blocked = Outcome.blocked

unfoldable pub check_foreground_process : Stats → ℕ → ℕ → Outcome Bool
unfolding with_match on_owner
check_foreground_process stats parent process_pgrp =
    on_owner parent (with_match owner_regex (stats process_pgrp) (λ m. m))
