-- ===== src/Scripts.antt =====
-- The test scripts that only talk to the console: tests/basic/foreground.py,
-- tests/advanced/multi_pipe_test.py and tests/custom/test_history.py, from after `setup_tests` up to
-- `test_success`. A script is the list of its calls; messages are not kept.
pub mod Passed
pub mod Exact
pub mod Moves
pub mod Performed
mod Examples
use custom_shell.Prelude.{ℕ, List, [], ◌∷◌, ◌++◌, Bytes, Option, codes}
use custom_shell.Python.Exec.{pure, ◌>>=◌, ◌>>◌}
use custom_shell.Python.Regex.{literal}
use custom_shell.Pexpect.Machine.{M}
use custom_shell.Pexpect.Sending.{Special, sendline, sendeof}
use custom_shell.Testutils.{expect_line, expect_exact_line, expect_prompt}

-- `sendline`, `expect_prompt`, `expect` of a text without special characters, `expect_exact`, and
-- `console.sendeof`.
pub data Move : Type 0 where
  sends : Bytes → Move
  awaits_prompt : Move
  awaits_match : Bytes → Move
  awaits_exact : Bytes → Move
  sends_eof : Move

-- `veof` is what the terminal says of its EOF character.
unfoldable pub make_move : Special → Move → M (Unit {0})
unfolding sendline sendeof expect_line expect_exact_line expect_prompt ◌>>=◌ pure
make_move veof (sends s) = sendline s >> pure tt
make_move veof awaits_prompt = expect_prompt
make_move veof (awaits_match s) = expect_line (literal s)
make_move veof (awaits_exact s) = expect_exact_line s
make_move veof sends_eof = sendeof veof >> pure tt

unfoldable pub perform : Special → List Move → M (Unit {0})
unfolding make_move ◌>>=◌ pure
perform veof [] = pure tt
perform veof (move ∷ moves) = make_move veof move >> perform veof moves

abbrev crlf : Bytes
crlf = 13 ∷ 10 ∷ []

abbrev pub foreground : List Move
foreground =
    awaits_prompt
    ∷ sends (codes "echo Hello cush")
    ∷ awaits_exact (codes "Hello cush" ++ crlf)
    ∷ sends (codes "/usr/bin/gcc")
    ∷ awaits_match (codes "gcc")
    ∷ awaits_match (codes "fatal error")
    ∷ awaits_match (codes "no input files")
    ∷ awaits_prompt
    ∷ sends (codes "gcc -fno-diagnostics-color")
    ∷ awaits_match (codes "gcc: fatal error: no input files")
    ∷ awaits_prompt
    ∷ sends_eof
    ∷ []

abbrev pub multi_pipe_test : List Move
multi_pipe_test =
    sends (codes "echo hi | cat | cat | cat | cat | cat | cat | cat")
    ∷ awaits_exact (codes "hi" ++ crlf)
    ∷ awaits_prompt
    ∷ sends (codes "echo hi | cat | cat | cat | cat | cat | cat | cat | tr h b | cat")
    ∷ awaits_exact (codes "bi" ++ crlf)
    ∷ awaits_prompt
    ∷ sends (codes "echo hello how are you | sed s/how/who/ | sed s/are/am/ | sed s/you/I/")
    ∷ awaits_exact (codes "hello who am I" ++ crlf)
    ∷ awaits_prompt
    ∷ sends (codes "echo string | rev | rev ")
    ∷ awaits_exact (codes "string" ++ crlf)
    ∷ awaits_prompt
    ∷ []

abbrev pub test_history : List Move
test_history = awaits_prompt ∷ sends (codes "history") ∷ awaits_match (codes "   0 history") ∷ []
