-- ===== src/Pexpect/Starting/Examples.antt =====
-- The start of the shell, and the theorems at concrete inputs.
use custom_shell.Prelude.{Bool, true, false, [], ◌∷◌, Bytes, codes, none, some, bytes_eq, ◌≡◌, refl}
use custom_shell.Python.Exec.{raised, index_error}
use custom_shell.Pexpect.Machine.{Machine, new_spawn}
use custom_shell.Pexpect.Lifecycle.Examples.{machine}
use custom_shell.Pexpect.Starting.{line, listed, in_parent, Settings, spawn_command}
use custom_shell.Pexpect.Starting.Started.{Started}

abbrev new_machine : Machine
new_machine = record machine { self = new_spawn none 2000 none false true }

abbrev settings : Settings
settings = record { cwd = none; env = none; max_fd = 6 }

-- There is one executable file.
abbrev is_shell : Bytes → Bool
is_shell path = bytes_eq path (codes "./cush")

starts_shell :
    ((spawn_command settings is_shell none
        (in_parent 42 5)
        (line (codes "./cush -p"))
        (listed [])
        new_machine).1.self.args
      ≡ codes "./cush" ∷ codes "-p" ∷ [])
    × ((spawn_command settings is_shell none
          (in_parent 42 5)
          (line (codes "./cush -p"))
          (listed [])
          new_machine).1.self.pid
        ≡ some 42)
unfolding spawn_command new_spawn
starts_shell = (refl, refl)

starts_nothing :
    (spawn_command settings is_shell none (in_parent 42 5) (line []) (listed []) new_machine).0
    ≡ raised index_error
unfolding spawn_command new_spawn
starts_nothing = refl
