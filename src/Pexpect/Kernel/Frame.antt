-- ===== src/Pexpect/Kernel/Frame.antt =====
-- The operating system's calls change no attribute of the object.
use custom_shell.Prelude.{ℕ, Bool, true, false, List, [], ◌∷◌, Option, none, some}
use custom_shell.Python.Exec.Keeps.{
  Keeps, Keeps-modify, Keeps-bind, Keeps-pure, Keeps-raise, Keeps-block, keeps_rules,
}
use custom_shell.Pexpect.Machine.{
  Wait, nothing, changed, World, Spawn, Machine, M, self, set_self, world, set_world,
}
use custom_shell.Pexpect.Kernel.{
  wait_for_change, take_wait, waitpid, send_signal, os_kill, now, sleep, os_close,
}

abbrev pub attributes : Machine → Spawn
attributes m = m.self

-- `m` keeps what holds of the attributes.
abbrev pub Leaves : {A : Type 0} → (Spawn → Type 0) → M A → Type 0
Leaves Q m = Keeps attributes Q m

module _ {Q : Spawn → Type 0} where
  pub set_world-Leaves : (f : World → World) → Leaves Q (set_world f)
  unfolding set_world
  set_world-Leaves f = record { at = λ s h. h }

  pub world-Leaves : Leaves Q world
  unfolding world
  world-Leaves = record { at = λ s h. h }

  pub self-Leaves : Leaves Q self
  unfolding self
  self-Leaves = record { at = λ s h. h }

  pub set_self-Leaves : (f : Spawn → Spawn) → ((s : Spawn) → Q s → Q (f s)) → Leaves Q (set_self f)
  unfolding set_self
  set_self-Leaves f k = record { at = λ s h. k s.self h }

pub ruleset frame_rules = (keeps_rules, set_world-Leaves, world-Leaves, self-Leaves)

module _ {Q : Spawn → Type 0} where
  wait_for_change-Leaves : (ws : List Wait) → Leaves Q (wait_for_change ws)
  unfolding wait_for_change
  wait_for_change-Leaves [] = search frame_rules
  wait_for_change-Leaves (Wait.failed errno ∷ rest) = search frame_rules
  wait_for_change-Leaves (nothing ∷ rest) = wait_for_change-Leaves rest
  wait_for_change-Leaves (changed status ∷ rest) = search frame_rules

  take_wait-Leaves : (ws : List Wait) → Leaves Q (take_wait ws)
  unfolding take_wait
  take_wait-Leaves [] = search frame_rules
  take_wait-Leaves (Wait.failed errno ∷ rest) = search frame_rules
  take_wait-Leaves (nothing ∷ rest) = search frame_rules
  take_wait-Leaves (changed status ∷ rest) = search frame_rules

  pub waitpid-Leaves : (blocking : Bool) → Leaves Q (waitpid blocking)
  unfolding waitpid
  waitpid-Leaves true = search (frame_rules, wait_for_change-Leaves)
  waitpid-Leaves false = search (frame_rules, take_wait-Leaves)

  send_signal-Leaves : (sig : ℕ) (ks : List (Option ℕ)) → Leaves Q (send_signal sig ks)
  unfolding send_signal
  send_signal-Leaves sig [] = search frame_rules
  send_signal-Leaves sig (none ∷ rest) = search frame_rules
  send_signal-Leaves sig (some errno ∷ rest) = search frame_rules

  pub os_kill-Leaves : (sig : ℕ) → Leaves Q (os_kill sig)
  unfolding os_kill
  os_kill-Leaves sig = search (frame_rules, send_signal-Leaves)

  pub now-Leaves : Leaves Q now
  unfolding now
  now-Leaves = search frame_rules

  pub sleep-Leaves : (d : ℕ) → Leaves Q (sleep d)
  unfolding sleep
  sleep-Leaves d = search frame_rules

  pub os_close-Leaves : Leaves Q os_close
  unfolding os_close
  os_close-Leaves = search frame_rules

pub ruleset kernel_rules =
    (frame_rules, waitpid-Leaves, os_kill-Leaves, now-Leaves, sleep-Leaves, os_close-Leaves)
