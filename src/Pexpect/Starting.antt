-- ===== src/Pexpect/Starting.antt =====
-- The start of the child in pexpect-dpty/pexpect.py: `_spawn`, and what the constructor does around
-- it. `os.access` and the environment are arguments, and so is the answer of `pty.fork`.
pub mod Started
pub mod Descriptors
mod Examples
use custom_shell.Prelude.{
  ℕ, zero, suc, ◌-◌, ◌+◌, Bool, false, List, [], ◌∷◌, ◌++◌, Bytes, codes, Option, none, some,
  if◌then◌else◌,
}
use custom_shell.Python.Exec.{
  type_error, pexpect_error, index_error, assertion_error, pure, raise, ◌>>=◌, ◌>>◌,
}
use custom_shell.Pexpect.Machine.{Spawn, M, self, set_self}
use custom_shell.Pexpect.CommandLine.{split_command_line}
use custom_shell.Pexpect.Which.{which}

-- The argument `command`: a string, or a number, which may be a descriptor.
pub data Command : Type 0 where
  line : Bytes → Command
  number : Command

-- The argument `args`: a list, or a value of another type.
pub data Args : Type 0 where
  listed : List Bytes → Args
  unlisted : Args

-- The answer of `pty.fork`: an errno, or the two processes in which it returns.
pub data Fork : Type 0 where
  refused : ℕ → Fork
  in_child : Fork
  in_parent : ℕ → ℕ → Fork

-- The calls that the child makes before it becomes the program, and the one by which it does.
pub data ChildCall : Type 0 where
  set_window : ℕ → ℕ → ChildCall
  close_descriptor : ℕ → ChildCall
  ignore_hangup : ChildCall
  change_directory : Bytes → ChildCall
  execute : Bytes → List Bytes → ChildCall
  execute_with : Bytes → List Bytes → List (Bytes × Bytes) → ChildCall

-- The attributes `cwd` and `env`, and the limit of the descriptors.
pub record Settings : Type 0 where
  pub cwd : Option Bytes
  pub env : Option (List (Bytes × Bytes))
  pub max_fd : ℕ

-- `for i in range (3, max_fd)`, with the numbers that are left.
close_from : ℕ → ℕ → List ChildCall
close_from i zero = []
close_from i (suc left) = close_descriptor i ∷ close_from (suc i) left

chdir_calls : Option Bytes → List ChildCall
chdir_calls none = []
chdir_calls (some cwd) = change_directory cwd ∷ []

exec_call : Option (List (Bytes × Bytes)) → Bytes → List Bytes → ChildCall
exec_call none command args = execute command args
exec_call (some env) command args = execute_with command args env

-- `if self.pid == 0`, of which nothing comes back where the last call succeeds: failures of the first two kinds of calls are ignored there.
unfoldable pub child_calls : Settings → Bytes → List Bytes → List ChildCall
unfolding close_from chdir_calls exec_call
child_calls settings command args =
    set_window 24 200
    ∷ (close_from 3 (settings.max_fd - 3)
        ++ ignore_hangup ∷ (chdir_calls settings.cwd ++ exec_call settings.env command args ∷ []))

-- `args[0]` of a list that may be empty.
first_word : List Bytes → M Bytes
first_word [] = raise index_error
first_word (command ∷ args) = pure command

set_words : List Bytes → M Bytes
unfolding first_word set_self
set_words args = do
  set_self (λ s. record s { args = args })
  command ← first_word args
  set_self (λ s. record s { command = some command })
  pure command

-- The two ways to give arguments.
choose_words : Bytes → List Bytes → M Bytes
unfolding set_words split_command_line
choose_words command [] = set_words (split_command_line command)
choose_words command (a ∷ args) = do
  set_self (λ s. record s { args = command ∷ a ∷ args; command = some command })
  pure command

-- `' '.join (self.args)`
abbrev pub join_blanks : List Bytes → Bytes
join_blanks [] = []
join_blanks (s ∷ []) = s
join_blanks (s ∷ t ∷ rest) = s ++ b' ' ∷ join_blanks (t ∷ rest)

-- `self.args[0] = self.command`
abbrev pub put_command : Bytes → List Bytes → List Bytes
put_command path [] = []
put_command path (c ∷ args) = path ∷ args

set_path : Option Bytes → M Bytes
unfolding set_self
set_path none = raise pexpect_error
set_path (some path) = do
  set_self (λ s.
      let args = put_command path s.args in
      record s { command = some path; args = args; name = b'<' ∷ (join_blanks args ++ b'>' ∷ []) })
  pure path

assert_new : Option ℕ → M (Unit {0})
assert_new none = pure tt
assert_new (some pid) = raise assertion_error

module _ (settings : Settings) where
  after_fork : Fork → Bytes → List Bytes → M (List ChildCall)
  unfolding child_calls set_self
  after_fork (refused errno) path args = raise pexpect_error
  after_fork in_child path args = do
    set_self (λ s. record s { pid = some 0; child_fd = some 1 })
    pure (child_calls settings path args)
  after_fork (in_parent pid fd) path args = do
    set_self
        (λ s. record s { pid = some pid; child_fd = some fd; terminated = false; closed = false })
    pure []

  module _ (executable : Bytes → Bool) (env_path : Option Bytes) (fork : Fork) where
    start : Bytes → List Bytes → M (List ChildCall)
    unfolding choose_words set_path assert_new after_fork which self
    start command args = do
      word ← choose_words command args
      path ← set_path (which executable env_path word)
      s ← self
      assert_new s.pid
      after_fork fork path s.args

    -- `_spawn`; the result is what a child does.
    unfoldable pub spawn_command : Command → Args → M (List ChildCall)
    unfolding start raise ◌>>=◌
    spawn_command number args = raise pexpect_error
    spawn_command (line command) unlisted = raise type_error
    spawn_command (line command) (listed args) = start command args

    -- The end of `__init__`.
    unfoldable pub init : Option Command → Args → M (List ChildCall)
    unfolding spawn_command set_self
    init none args = do
      set_self
          (λ s. record s { command = none; args = []; name = codes "<pexpect factory incomplete>" })
      pure []
    init (some command) args = spawn_command command args
