-- ===== src/Testutils.antt =====
-- tests/testutils.py: the helpers by which a test script talks to the shell. The console is the
-- `spawn` of the shell; messages are not kept.
pub mod Single
pub mod Texts
pub mod Parsed
pub mod JobTexts
pub mod Jobs
mod Examples
use custom_shell.Prelude.{
  ℕ, zero, suc, ◌+◌, ◌-◌, Bool, true, false, List, [], ◌∷◌, ◌++◌, Bytes, Option, none, some, ◌==◌,
  codes, ltb, ◌&&◌, bytes_eq, if◌then◌else◌, inl,
}
use custom_shell.Prelude.Int.{ℤ, pos, negsuc}
use custom_shell.Python.Exec.{
  type_error, value_error, attribute_error, assertion_error, exception, pure, raise, ◌>>=◌, ◌>>◌,
}
use custom_shell.Python.Regex.{Regex, group_value}
use custom_shell.Pexpect.Machine.{MatchValue, no_match, match_of, eof_match, timeout_match, M, self}
use custom_shell.Pexpect.Kernel.{sleep}
use custom_shell.Pexpect.Searcher.{Entry}
use custom_shell.Pexpect.Lifecycle.{close}
use custom_shell.Pexpect.Expect.{default_window, window_of}
use custom_shell.Pexpect.Patterns.{plain, single, expect, expect_exact}
use custom_shell.Pexpect.Sending.{sendline}
use custom_shell.OutputSpec.{
  prompt, bgjob_regex, job_status_regex, jobs_status_msg, builtin_commands,
}

abbrev pub minus_one : Option ℤ
minus_one = some (negsuc 0)

-- `assert … == 0`
unfoldable pub assert_zero : Option ℕ → M (Unit {0})
assert_zero none = raise assertion_error
assert_zero (some zero) = pure tt
assert_zero (some (suc index)) = raise assertion_error

-- `expect`, for a line that stands as the expression that it denotes.
unfoldable pub expect_line : Regex → M (Unit {0})
unfolding assert_zero expect ◌>>=◌
expect_line line = expect (single (plain line)) minus_one (window_of none) >>= assert_zero

unfoldable pub expect_exact_line : Bytes → M (Unit {0})
unfolding assert_zero expect_exact ◌>>=◌
expect_exact_line line =
    expect_exact (inl (Entry.pattern line)) minus_one default_window >>= assert_zero

unfoldable pub expect_prompt : M (Unit {0})
unfolding expect_line
expect_prompt = expect_line prompt

-- `[match.group(i) for i in range(1, match.lastindex + 1)]`; `lastindex` is the number of the group
-- that was closed last, and all groups up to it have matched in the expressions that are used.
group_values : ℕ → List (ℕ × Bytes) → List Bytes
unfolding group_value
group_values zero groups = []
group_values (suc n) groups = group_values n groups ++ group_value (suc n) groups ∷ []

-- `__regex2tuple`; without a group `lastindex` is `None`, and the two classes have no `group`.
regex2tuple : MatchValue → M (List Bytes)
unfolding group_values
regex2tuple no_match = raise attribute_error
regex2tuple (match_of []) = raise type_error
regex2tuple (match_of ((n, s) ∷ groups)) = pure (group_values n ((n, s) ∷ groups))
regex2tuple eof_match = raise attribute_error
regex2tuple timeout_match = raise attribute_error

-- `parse_regular_expression`, and `expect_regex` with it.
unfoldable pub expect_regex : Regex → M (List Bytes)
unfolding regex2tuple expect self ◌>>=◌
expect_regex regex = do
  expect (single (plain regex)) minus_one (window_of none)
  s ← self
  regex2tuple s.match

pub record BgStatus : Type 0 where
  pub job_id : Bytes
  pub pid : Bytes

-- `jid, pid = …`; a tuple of another length is a `ValueError`.
to_bg_status : List Bytes → M BgStatus
to_bg_status (jid ∷ pid ∷ []) = pure (record { job_id = jid; pid = pid })
to_bg_status values = raise value_error

unfoldable pub parse_bg_status : M BgStatus
unfolding to_bg_status expect_regex ◌>>=◌
parse_bg_status = expect_regex bgjob_regex >>= to_bg_status

pub record JobStatus : Type 0 where
  pub id : Bytes
  pub status : Bytes
  pub command : Bytes

-- The name of a status message, or the message itself.
unfoldable pub status_name : Bytes → List (Bytes × Bytes) → Bytes
status_name status [] = status
status_name status ((name, val) ∷ items) =
    if bytes_eq val status then name else status_name status items

to_job_status : List Bytes → M JobStatus
unfolding status_name
to_job_status (jid ∷ status ∷ cmd ∷ []) =
    pure (record { id = jid; status = status_name status jobs_status_msg; command = cmd })
to_job_status values = raise value_error

unfoldable pub parse_job_line : M JobStatus
unfolding to_job_status expect_regex ◌>>=◌
parse_job_line = expect_regex job_status_regex >>= to_job_status

-- `builtin_commands.get(command, command)`
get_command : Bytes → List (Bytes × Bytes) → Bytes
get_command command [] = command
get_command command ((name, format) ∷ items) =
    if bytes_eq name command then format else get_command command items

-- `format % args` for strings: `%s` and `%%`. Too few or too many arguments are a `TypeError`, any
-- other conversion counts as a `ValueError`.
fill : Bytes → List Bytes → M Bytes
fill [] [] = pure []
fill [] (a ∷ args) = raise type_error
fill (c ∷ []) args = if c == b'%' then raise value_error else (fill [] args >>= λ s. pure (c ∷ s))
fill (c ∷ d ∷ format) args = elim (c == b'%') [
  | false ↦ (fill (d ∷ format) args >>= λ s. pure (c ∷ s))
  | true ↦ elim (d == b'%') [
    | true ↦ (fill format args >>= λ s. pure (c ∷ s))
    | false ↦ elim (d == b's') [
      | false ↦ raise value_error
      | true ↦ elim args [
        | [] ↦ raise type_error
        | a ∷ rest ↦ (fill format rest >>= λ s. pure (a ++ s))
      ]
    ]
  ]
]

unfoldable pub run_builtin : Bytes → List Bytes → M (Unit {0})
unfolding fill get_command sendline ◌>>=◌
run_builtin command args = do
  s ← fill (get_command command builtin_commands) args
  sendline s
  pure tt

-- `kill`, which runs when the script ends.
unfoldable pub kill_shell : M (Unit {0})
unfolding close
kill_shell = close true

-- The order of `sorted` on byte strings.
bytes_leb : Bytes → Bytes → Bool
bytes_leb [] t = true
bytes_leb (c ∷ s) [] = false
bytes_leb (c ∷ s) (d ∷ t) =
    let rest = bytes_leb s t in if ltb c d then true else if c == d then rest else false

insert : Bytes → List Bytes → List Bytes
unfolding bytes_leb
insert s [] = s ∷ []
insert s (t ∷ list) = if bytes_leb s t then s ∷ t ∷ list else t ∷ insert s list

sorted : List Bytes → List Bytes
unfolding insert
sorted [] = []
sorted (s ∷ list) = insert s (sorted list)

list_eq : List Bytes → List Bytes → Bool
list_eq [] [] = true
list_eq (s ∷ list) (t ∷ other) = bytes_eq s t && list_eq list other
list_eq _ _ = false

-- `assert_correct_fds`, where `listing` is what `os.listdir` gives after half a second.
unfoldable pub assert_correct_fds : List Bytes → M (Unit {0})
unfolding sorted list_eq sleep ◌>>=◌
assert_correct_fds listing = do
  sleep 500000
  if list_eq (sorted listing) (codes "0" ∷ codes "1" ∷ codes "2" ∷ [])
      then pure tt
      else raise exception
