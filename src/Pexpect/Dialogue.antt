-- ===== src/Pexpect/Dialogue.antt =====
-- What a test script does with a `spawn` of pexpect-dpty/pexpect.py: lines sent with `sendline`, and
-- calls of `expect_loop`, in any order.
pub mod Calls
pub mod Account
mod Examples
use custom_shell.Prelude.{ℕ, List, [], ◌∷◌, ◌++◌, Bytes, Option, none, some}
use custom_shell.Prelude.Int.{ℤ}
use custom_shell.Python.Exec.{pure, ◌>>=◌, ◌>>◌}
use custom_shell.Pexpect.Machine.{After, matched, eof_class, M, self}
use custom_shell.Pexpect.Sending.{sendline}
use custom_shell.Pexpect.Expect.{Searching, WindowArg, expect_loop}

pub data Call : Type 0 where
  say : Bytes → Call
  hear : Searching → Option ℤ → WindowArg → Call

-- The text that a call of `expect_loop` has taken off the buffer, by `after` and `before`: up to the end
-- of a match, all of it at EOF, nothing at TIMEOUT.
abbrev pub text_taken : After → Option Bytes → Bytes
text_taken (matched s) (some front) = front ++ s
text_taken eof_class (some front) = front
text_taken after before = []

-- The index that a call returns, and the text that it takes.
pub record Heard : Type 0 where
  pub index : Option ℕ
  pub taken : Bytes

-- The script returns what its calls of `expect_loop` have heard.
unfoldable pub talk : List Call → M (List Heard)
unfolding sendline expect_loop self ◌>>=◌
talk [] = pure []
talk (say s ∷ calls) = do sendline s; talk calls
talk (hear searcher timeout arg ∷ calls) = do
  index ← expect_loop searcher timeout arg
  o ← self
  rest ← talk calls
  pure (record { index = index; taken = text_taken o.after o.before } ∷ rest)
