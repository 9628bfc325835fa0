-- ===== src/Pexpect/Session/Examples.antt =====
-- Sessions with small scripts, and the theorems at concrete inputs.
use custom_shell.Prelude.{true, false, [], ◌∷◌, Bytes, codes, none, some, ◌≡◌, refl}
use custom_shell.Python.Exec.{ok}
use custom_shell.Pexpect.Machine.{chunk, new_spawn}
use custom_shell.Pexpect.Lifecycle.Examples.{machine}
use custom_shell.Pexpect.Session.{waitnoecho, before_last, interact}

-- The default escape character is 29.
abbrev keys : Bytes
keys = b'a' ∷ 29 ∷ b'b' ∷ 29 ∷ b'c' ∷ []

-- An escape character before the last one is sent to the child.
sends_escape : before_last 29 keys ≡ some (b'a' ∷ 29 ∷ b'b' ∷ [])
unfolding before_last
sends_escape = refl

session :
    ((interact 29
        (λ s. s)
        (λ s. s)
        (record { child = some (chunk (codes "$ ")); user = some (chunk keys) } ∷ [])
        machine).0
      ≡ ok tt)
    × ((interact 29
          (λ s. s)
          (λ s. s)
          (record { child = some (chunk (codes "$ ")); user = some (chunk keys) } ∷ [])
          machine).1.world.screen
        ≡ [] ∷ codes "$ " ∷ [])
unfolding interact new_spawn
session = (refl, refl)

goes_off : (waitnoecho (some true ∷ some false ∷ []) none machine).0 ≡ ok true
unfolding waitnoecho new_spawn
goes_off = refl
