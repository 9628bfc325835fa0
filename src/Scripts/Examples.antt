-- ===== src/Scripts/Examples.antt =====
-- A run of a script against what a shell prints.
use custom_shell.Prelude.{List, [], ◌∷◌, Bytes, codes, ◌≡◌, refl}
use custom_shell.Python.Regex
use custom_shell.Python.Exec.{ok}
use custom_shell.Pexpect.Machine.{Machine, Arrival, item, late, new_spawn}
use custom_shell.Pexpect.Lifecycle.Examples.{machine}
use custom_shell.Pexpect.Sending.{undefined}
use custom_shell.Scripts.{perform, test_history}

abbrev prompt_line : Bytes
prompt_line = codes "<me@host dir>$ "

abbrev items : List Bytes → List Arrival
items [] = late ∷ []
items (s ∷ pieces) = item s ∷ items pieces

abbrev prints : List Bytes → Machine
prints pieces = record machine { world = record machine.world { arrivals = items pieces } }

abbrev good_shell : Machine
good_shell =
    prints (prompt_line ∷ codes "history" ∷ (13 ∷ 10 ∷ codes "   0 hist") ∷ codes "ory" ∷ [])

passes : (perform undefined test_history good_shell).0 ≡ ok tt
unfolding perform Regex.search new_spawn
passes = refl
