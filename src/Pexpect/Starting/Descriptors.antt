-- ===== src/Pexpect/Starting/Descriptors.antt =====
-- Which descriptors a new child closes.
use custom_shell.Prelude.{ℕ, ◌-◌, List, ◌∷◌, ◌++◌, Bytes, ◌≡◌}
use custom_shell.Pexpect.Starting.{
  ChildCall, set_window, execute, execute_with, close_descriptor, ignore_hangup, Settings,
  close_from, chdir_calls,
}

module _ (fd : ℕ) where
  -- The descriptor is closed.
  abbrev pub IsClose : ChildCall → Type 0
  IsClose c = c ≡ close_descriptor fd

  abbrev number_of : ChildCall → ℕ
  number_of (close_descriptor k) = k
  number_of c = 0

-- The call that ends the child's part: `exec`.
abbrev pub IsExec : ChildCall → Type 0
IsExec (execute path args) = Unit
IsExec (execute_with path args env) = Unit
IsExec _ = ⊥

abbrev IsEarly : ChildCall → Type 0
IsEarly c = IsExec c → ⊥

module _ (settings : Settings) (path : Bytes) (args : List Bytes) where
  abbrev limit : ℕ
  limit = settings.max_fd - 3

  abbrev front_calls : List ChildCall
  front_calls = set_window 24 200 ∷ (close_from 3 limit ++ ignore_hangup ∷ chdir_calls settings.cwd)
