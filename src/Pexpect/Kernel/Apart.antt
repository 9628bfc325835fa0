-- ===== src/Pexpect/Kernel/Apart.antt =====
-- `waitpid` and the clock leave the rest of the world alone.
use custom_shell.Prelude.{Option, ℕ, Bool, true, false, List, [], ◌∷◌}
use custom_shell.Python.Exec.Triple.{Triple}
use custom_shell.Python.Exec.{Exn, gets, modify, ◌>>=◌, pure}
use custom_shell.Python.Exec.Keeps.{Keeps, keeps_rules}
use custom_shell.Pexpect.Machine.{
  Wait, nothing, changed, World, Spawn, Machine, M, self, set_self, world, set_world,
}
use custom_shell.Pexpect.Kernel.{wait_for_change, take_wait, waitpid, pass_time, now}

abbrev pub outside : Machine → World
outside m = m.world

-- `m` keeps what holds of the world.
abbrev pub Spares : {A : Type 0} → (World → Type 0) → M A → Type 0
Spares Q m = Keeps outside Q m

module _ {Q : World → Type 0} where
  pub world-Spares : Spares Q world
  unfolding world
  world-Spares = record { at = λ s h. h }

  pub self-Spares : Spares Q self
  unfolding self
  self-Spares = record { at = λ s h. h }

  pub set_self-Spares : (f : Spawn → Spawn) → Spares Q (set_self f)
  unfolding set_self
  set_self-Spares f = record { at = λ s h. h }

  pub set_world-Spares :
      (f : World → World) → ((w : World) → Q w → Q (f w)) → Spares Q (set_world f)
  unfolding set_world
  set_world-Spares f k = record { at = λ s h. k s.world h }

pub ruleset apart_rules = (keeps_rules, world-Spares, self-Spares, set_self-Spares)

module _ {Q : World → Type 0}
    (free : (w : World) (ws : List Wait) → Q w → Q (record w { waits = ws })) where
  set_waits-Spares : (ws : List Wait) → Spares Q (set_world (λ w. record w { waits = ws }))
  set_waits-Spares ws = set_world-Spares _ (λ w h. free w ws h)

  wait_for_change-Spares : (ws : List Wait) → Spares Q (wait_for_change ws)
  unfolding wait_for_change
  wait_for_change-Spares [] = search (apart_rules, set_waits-Spares)
  wait_for_change-Spares (Wait.failed errno ∷ rest) = search (apart_rules, set_waits-Spares)
  wait_for_change-Spares (nothing ∷ rest) = wait_for_change-Spares rest
  wait_for_change-Spares (changed status ∷ rest) = search (apart_rules, set_waits-Spares)

  take_wait-Spares : (ws : List Wait) → Spares Q (take_wait ws)
  unfolding take_wait
  take_wait-Spares [] = search apart_rules
  take_wait-Spares (Wait.failed errno ∷ rest) = search (apart_rules, set_waits-Spares)
  take_wait-Spares (nothing ∷ rest) = search (apart_rules, set_waits-Spares)
  take_wait-Spares (changed status ∷ rest) = search (apart_rules, set_waits-Spares)

  pub waitpid-Spares : (blocking : Bool) → Spares Q (waitpid blocking)
  unfolding waitpid
  waitpid-Spares true = search (apart_rules, wait_for_change-Spares)
  waitpid-Spares false = search (apart_rules, take_wait-Spares)

-- What does not speak of the clock.
module _ {Q : World → Type 0}
    (timeless : (w : World) (c : ℕ) (ts : List ℕ)
      → Q w
      → Q (record w { clock = c; ticks = ts })) where
  pass_time-Spares : (ts : List ℕ) (w : World) → Q w → Q (pass_time ts w)
  unfolding pass_time
  pass_time-Spares [] w h = timeless w _ w.ticks h
  pass_time-Spares (t ∷ rest) w h = timeless w _ rest h

  pub now-Spares : Spares Q now
  unfolding now
  now-Spares = search (apart_rules, set_world-Spares, pass_time-Spares)

  -- Reading the clock cannot fail.
  pub now-Triple :
      {E : Option Exn → Machine → Type 0} → Triple (λ m. Q m.world) now (λ _ m. Q m.world) E
  unfolding now set_world world ◌>>=◌ pure gets modify
  now-Triple = record { run = λ s h. pass_time-Spares s.world.ticks s.world h }
