-- ===== src/Pexpect/Running.antt =====
-- `run` of pexpect-dpty/pexpect.py: a command with responses to what it writes.
pub mod Matches
pub mod Ended
pub mod Result
mod Examples
use mathlib.Core.List.{flatten}
use custom_shell.Prelude.{
  ℕ, zero, suc, Bool, true, false, List, [], ◌∷◌, ◌++◌, Bytes, Option, none, some, get_elem?,
  if◌then◌else◌,
}
use custom_shell.Prelude.Int.{ℤ, pos, negsuc}
use custom_shell.Python.Exec.{Exn, type_error, index_error, pure, raise, try_else, ◌>>=◌, ◌>>◌}
use custom_shell.Pexpect.Machine.{After, matched, Spawn, M, self, set_self, new_spawn}
use custom_shell.Pexpect.Starting.{line, listed, Fork, Settings, spawn_command}
use custom_shell.Pexpect.Lifecycle.{close}
use custom_shell.Pexpect.Reading.{or_default}
use custom_shell.Pexpect.Expect.{window_of}
use custom_shell.Pexpect.Patterns.{Patterns, expect}
use custom_shell.Pexpect.Streams.{before_text}
use custom_shell.Pexpect.Sending.{send}

-- What a callback returns: a string, or a value that counts as true or as false.
pub data Reply : Type 0 where
  answer : Bytes → Reply
  stop : Reply
  go_on : Reply

-- A response of `events`: a string, a function, which may use the child, or anything else.
pub data Response : Type 0 where
  string : Bytes → Response
  callback : M Reply → Response
  unusable : Response

-- The options of the child: `if timeout == -1` leaves the timeout of the constructor.
abbrev pub run_spawn : Option ℤ → Bool → Spawn
run_spawn timeout logfile =
    new_spawn (or_default timeout (some (pos 30000000))) 2000 none logfile true

-- What is added to `child_result_list`: the text of a match, or all of it at EOF and TIMEOUT.
piece : After → Option Bytes → M Bytes
unfolding before_text
piece (matched s) before = do b ← before_text before; pure (b ++ s)
piece a before = before_text before

-- A reply of a callback; the result says whether the run stops.
pub reply : Reply → M Bool
unfolding send
reply (answer s) = do send s; pure false
reply stop = pure true
reply go_on = pure false

pub respond : Response → M Bool
unfolding reply send
respond (string s) = do send s; pure false
respond (callback f) = f >>= reply
respond unusable = raise type_error

-- `responses[index]`, where `responses` is `None` without events.
pub find_response : Option Response → M Response
find_response none = raise index_error
find_response (some r) = pure r

pub respond_to : Option (List Response) → ℕ → M Bool
unfolding respond find_response
respond_to none index = raise type_error
respond_to (some responses) index = do r ← find_response (get_elem? responses index); respond r

-- The handlers of TIMEOUT and EOF, which end the loop.
pub on_end : List Bytes → Exn → M (Option (List Bytes))
unfolding before_text self
on_end results Exn.timeout = do s ← self; b ← before_text s.before; pure (some (results ++ b ∷ []))
on_end results Exn.eof = do s ← self; b ← before_text s.before; pure (some (results ++ b ∷ []))
on_end results e = raise e

module _ (responses : Option (List Response)) where
  -- Behind a match, where `again` is the rest of the loop.
  after_match :
      (List Bytes → M (Option (List Bytes))) → List Bytes → Option ℕ → M (Option (List Bytes))
  unfolding piece respond_to on_end self try_else
  after_match again results none = pure none
  after_match again results (some index) = do
    s ← self
    p ← piece s.after s.before
    try_else (respond_to responses index) (on_end (results ++ p ∷ []))
        (λ stops. if stops then pure (some (results ++ p ∷ [])) else again (results ++ p ∷ []))

  module _ (patterns : Patterns) where
    -- `while 1`, on fuel; `none` means that the fuel has run out.
    run_loop : ℕ → List Bytes → M (Option (List Bytes))
    unfolding after_match on_end expect try_else
    run_loop zero results = pure none
    run_loop (suc fuel) results =
        try_else (expect patterns (some (negsuc 0)) (window_of none)) (on_end results)
          (after_match (run_loop fuel) results)

    -- The end of `run`: the output, and the exit status where it is wanted.
    finish_run : Bool → Option (List Bytes) → M (Option (Bytes × Option ℕ))
    unfolding close self
    finish_run withexitstatus none = pure none
    finish_run false (some results) = pure (some (flatten results, none))
    finish_run true (some results) = do
      close true
      s ← self
      pure (some (flatten results, s.exitstatus))

    -- `run`, behind the start of the child.
    unfoldable pub run_child : ℕ → Bool → M (Option (Bytes × Option ℕ))
    unfolding run_loop finish_run ◌>>=◌
    run_child fuel withexitstatus = run_loop fuel [] >>= finish_run withexitstatus

    -- `run`: a new child, and then the loop. In the child process the calls of `_spawn` are the end.
    module _ (settings : Settings) (executable : Bytes → Bool) (env_path : Option Bytes)
        (fork : Fork) where
      run : Bytes → Option ℤ → Bool → ℕ → Bool → M (Option (Bytes × Option ℕ))
      unfolding run_child spawn_command set_self
      run command timeout logfile fuel withexitstatus = do
        set_self (λ s. run_spawn timeout logfile)
        spawn_command settings executable env_path fork (line command) (listed [])
        run_child fuel withexitstatus
