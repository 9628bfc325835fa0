-- ===== src/Pexpect/Dialogue/Examples.antt =====
-- A short script on a concrete child.
use custom_shell.Prelude.{List, [], ◌∷◌, codes, none, some, ◌≡◌, refl}
use custom_shell.Prelude.Int.{negsuc}
use custom_shell.Python.Exec.{ok}
use custom_shell.Python.Exec.Triple.{Post}
use custom_shell.Pexpect.Machine.{item, late, Machine, new_spawn}
use custom_shell.Pexpect.Lifecycle.Examples.{machine}
use custom_shell.Pexpect.Searcher.{eof, pattern, new_searcher}
use custom_shell.Pexpect.Patterns.{searching_string}
use custom_shell.Pexpect.Expect.{default_window}
use custom_shell.Pexpect.Dialogue.{Call, say, hear, talk}
use custom_shell.Pexpect.Dialogue.Calls.{HasTalked, IsBroken}
use custom_shell.Pexpect.Dialogue.Account.{talk-HasTalked}

-- Wait for the prompt, list the files, and wait for the next prompt.
abbrev script : List Call
script =
    hear (searching_string (new_searcher (pattern (codes "$ ") ∷ []))) (some (negsuc 0))
      default_window
    ∷ say (codes "ls")
    ∷ hear (searching_string (new_searcher (eof ∷ pattern (codes "$ ") ∷ []))) none default_window
    ∷ []

abbrev console : Machine
console = record machine {
  world = record machine.world {
    arrivals = item (codes "$ ") ∷ late ∷ item (codes "cush") ∷ item (codes " $ ") ∷ [];
  };
}

talk-HasTalked_example :
    Post
      (HasTalked (console.world.writes ≡ []) console script)
      (IsBroken (console.world.writes ≡ []) console script)
      (talk script console).0
      (talk script console).1
talk-HasTalked_example = talk-HasTalked script console

hears_both :
    (talk script console).0
    ≡ ok (
        record { index = some 0; taken = codes "$ " }
        ∷ record { index = some 1; taken = codes "cush $ " }
        ∷ [])
unfolding talk searching_string new_searcher new_spawn
hears_both = refl
