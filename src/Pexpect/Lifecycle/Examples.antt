-- ===== src/Pexpect/Lifecycle/Examples.antt =====
-- A child that the kernel reports to have ended, and the theorems on it.
use mathlib.Core.List.{Sublist}
use custom_shell.Prelude.{ℕ, ◌*◌, true, false, List, [], ◌∷◌, ◌++◌, none, some, ◌≡◌, refl}
use custom_shell.Prelude.Int.{pos}
use custom_shell.Python.Exec.{ok}
use custom_shell.Pexpect.Machine.{nothing, changed, World, Spawn, Machine, new_spawn}
use custom_shell.Pexpect.Lifecycle.{isalive, terminate, wait, sighup}
use custom_shell.Pexpect.Lifecycle.Verdict.{Verdict, isalive-Verdict}
use custom_shell.Pexpect.Lifecycle.Ages.{
  ended, life, Ages, look, end, await, after_calls, after_calls-Ages,
}
use custom_shell.Pexpect.Lifecycle.Signals.{plan, terminate-Sends}

abbrev pub child : Spawn
child = record (new_spawn (some (pos 30000000)) 2000 none false true) {
  terminated = false;
  pid = some 42;
  child_fd = some 5;
  closed = false;
}

-- Two looks see nothing; after SIGHUP the child has been killed by it.
abbrev pub hung_up : World
hung_up = record {
  waits = nothing ∷ nothing ∷ nothing ∷ nothing ∷ nothing ∷ changed 1 ∷ [];
  selects = [];
  reads = [];
  arrivals = [];
  kills = [];
  writes = [];
  clock = 0;
  ticks = [];
  fd_open = true;
  signals = [];
  written = [];
  logged = [];
  screen = [];
}

abbrev pub machine : Machine
machine = record { self = child; world = hung_up }

-- The example has SIGHUP end the child at the second look after it.
hangs_up :
    ((terminate false machine).0 ≡ ok true)
    × ((terminate false machine).1.world.signals ≡ sighup ∷ [])
    × ((terminate false machine).1.self.signalstatus ≡ some 1)
unfolding terminate new_spawn
hangs_up = (refl, refl, refl)

abbrev exited : Machine
exited = record machine { world = record hung_up { waits = changed (3 * 256) ∷ [] } }

exits : ((isalive exited).0 ≡ ok false) × ((isalive exited).1.self.exitstatus ≡ some 3)
unfolding isalive new_spawn
exits = (refl, refl)

isalive-Verdict_example : Verdict exited (isalive exited).0 (isalive exited).1
isalive-Verdict_example = isalive-Verdict exited

terminate-Sends_example :
    (k : List ℕ) × ((terminate false machine).1.world.signals ≡ [] ++ k) × Sublist k (plan false)
terminate-Sends_example = terminate-Sends false machine

-- Look, end the child, and wait for it.
after_calls-Ages_example :
    Ages (life child) (life (after_calls (look ∷ end false ∷ await ∷ []) machine).self)
after_calls-Ages_example = after_calls-Ages (look ∷ end false ∷ await ∷ []) machine

dies_once :
    life (after_calls (look ∷ end false ∷ await ∷ []) machine).self ≡ ended (some 1) none (some 1)
unfolding isalive terminate wait new_spawn
dies_once = refl
