-- ===== src/Pexpect/Reading/Selected.antt =====
-- Waiting with `select` takes no text of the child.
use custom_shell.Prelude.{
  ℕ, ◌≤◌, ◌<◌, Bool, true, false, List, [], ◌∷◌, ◌++◌, Bytes, Option, none, some, ◌==◌, length, ◌≡◌,
  refl, arith,
}
use custom_shell.Prelude.Int.{ℤ, pos, ◌+ℤ◌, is_negative}
use custom_shell.Python.Exec.{Outcome, ok, raised, blocked, select_error, gets, ◌>>=◌}
use custom_shell.Python.Exec.Triple.{
  Triple, Post, Triple-pure, Triple-raise, Triple-block, Triple-if, Triple-from, Triple-bind,
}
use custom_shell.Pexpect.Machine.{
  Wait, Select, ready, expired, Read, chunk, World, Machine, M, world, set_world,
}
use custom_shell.Pexpect.Kernel.{now}
use custom_shell.Pexpect.Kernel.Apart.{Spares, apart_rules, now-Spares}
use custom_shell.Pexpect.Lifecycle.{isalive}
use custom_shell.Pexpect.Lifecycle.Apart.{isalive-Spares}
use custom_shell.Pexpect.Reading.{time_left, select_loop, start_select, select}

-- The bytes that the kernel still has.
abbrev pub pending : List Read → Bytes
pending [] = []
pending (chunk s ∷ rest) = s ++ pending rest
pending (Read.failed errno ∷ rest) = pending rest

-- Nothing was read since `w`, and no answer of `select` came back.
pub record Steady (w v : World) : Type 0 where
  pub reads : pending v.reads ≡ pending w.reads
  pub arrivals : v.arrivals ≡ w.arrivals
  pub selects : length v.selects ≤ length w.selects

pub Steady-refl : (w : World) → Steady w w
Steady-refl w = record { reads = refl; arrivals = refl; selects = omega arith }

free : (w v : World) (ws : List Wait) → Steady w v → Steady w (record v { waits = ws })
free w v ws h = record { reads = h.reads; arrivals = h.arrivals; selects = h.selects }

timeless :
    (w v : World) (c : ℕ) (ts : List ℕ) → Steady w v → Steady w (record v { clock = c; ticks = ts })
timeless w v c ts h = record { reads = h.reads; arrivals = h.arrivals; selects = h.selects }

module _ (w : World) where
  pub isalive-Steady : Spares (Steady w) isalive
  isalive-Steady = isalive-Spares (free w)

  pub now-Steady : Spares (Steady w) now
  now-Steady = now-Spares (timeless w)

  abbrev pub Calm : Machine → Type 0
  Calm m = Steady w m.world

  module _ {A : Type 0} where
    -- A call that keeps the world steady.
    pub calm : {m : M A} → Spares (Steady w) m → Triple Calm m (λ _. Calm) (λ _. Calm)
    calm {m = m} k = record { run = λ s h. go (m s).0 (m s).1 (k.at s h) }
      where
        go : (o : Outcome A) (s : Machine) → Calm s → Post (λ _. Calm) (λ _. Calm) o s
        go (ok a) s h = h
        go (raised e) s h = h
        go blocked s h = h

  -- An answer of `select` is used up.
  pub record Shorter (m : Machine) : Type 0 where
    pub steady : Steady w m.world
    pub fewer : length m.world.selects < length w.selects

  -- What `select` has done.
  abbrev pub Selected : Bool → Machine → Type 0
  Selected true m = Shorter m
  Selected false m = Calm m

  abbrev use_answers : List Select → Machine → Machine
  use_answers rest s = record s { world = record s.world { selects = rest } }

  used-Shorter :
      (rest : List Select) (s : Machine)
      → length rest < length w.selects
      → Calm s
      → Shorter (use_answers rest s)
  used-Shorter rest s l h = record {
    steady = record { reads = h.reads; arrivals = h.arrivals; selects = omega (arith, l) };
    fewer = l;
  }

  use-Shorter :
      (rest : List Select)
      → length rest < length w.selects
      → Triple Calm (set_world (λ v. record v { selects = rest })) (λ _. Shorter) (λ _. Calm)
  unfolding set_world
  use-Shorter rest l = record { run = λ s h. used-Shorter rest s l h }

  time_left-Steady : (end_time : ℤ) → Spares (Steady w) (time_left end_time)
  unfolding time_left
  time_left-Steady end_time = search (apart_rules, now-Steady)

  module _ {A : Type 0} where
    then-Calm :
        {Q : A → Machine → Type 0} {m : M A}
        → Triple Calm m Q (λ _. Calm)
        → Triple Shorter m Q (λ _. Calm)
    then-Calm = Triple-from (λ s h. h.steady)

  select_loop-Selected :
      (answers : List Select) (end_time : ℤ) (limit : Option ℤ)
      → length answers ≤ length w.selects
      → Triple Calm (select_loop answers end_time limit) Selected (λ _. Calm)
  unfolding select_loop
  select_loop-Selected [] end_time none l = Triple-block (λ s h. h)
  select_loop-Selected [] end_time (some t) l = Triple-pure false (λ s h. h)
  select_loop-Selected (ready ∷ rest) end_time none l =
      Triple-bind _ _ (use-Shorter rest (omega (arith, l))) (λ _. Triple-pure true (λ s h. h))
  select_loop-Selected (ready ∷ rest) end_time (some t) l =
      Triple-bind _ _ (use-Shorter rest (omega (arith, l))) (λ _. Triple-pure true (λ s h. h))
  select_loop-Selected (expired ∷ rest) end_time none l =
      select_loop-Selected rest end_time none (omega (arith, l))
  select_loop-Selected (expired ∷ rest) end_time (some t) l =
      Triple-bind _ _ (use-Shorter rest (omega (arith, l)))
        (λ _. Triple-pure false (λ s h. h.steady))
  select_loop-Selected (Select.failed errno ∷ rest) end_time none l =
      Triple-bind _ _ (use-Shorter rest (omega (arith, l))) (λ _.
        Triple-if (errno == 4) _ _
          (λ _. then-Calm (select_loop-Selected rest end_time none (omega (arith, l))))
          (λ _. Triple-raise (select_error errno) (λ s h. h.steady)))
  select_loop-Selected (Select.failed errno ∷ rest) end_time (some t) l =
      Triple-bind _ _ (use-Shorter rest (omega (arith, l))) (λ _.
        Triple-if (errno == 4) _ _
          (λ _. then-Calm (
            Triple-bind _ _ (calm (time_left-Steady end_time)) (λ left.
              Triple-if (is_negative left) _ _ (λ _. Triple-pure false (λ s h. h))
                (λ _. select_loop-Selected rest end_time (some left) (omega (arith, l))))))
          (λ _. Triple-raise (select_error errno) (λ s h. h.steady)))

  start_select-Selected :
      (limit : Option ℤ) (answers : List Select)
      → length answers ≤ length w.selects
      → Triple Calm (start_select limit answers) Selected (λ _. Calm)
  unfolding start_select
  start_select-Selected none answers l = select_loop-Selected answers (pos 0) none l
  start_select-Selected (some t) answers l =
      Triple-if (is_negative t) _ _ (λ _. Triple-raise _ (λ s h. h))
        (λ _.
          Triple-bind _ _ (calm now-Steady)
            (λ start. select_loop-Selected answers (pos start +ℤ t) (some t) l))

  pub select-Selected : (limit : Option ℤ) → Triple Calm (select limit) Selected (λ _. Calm)
  unfolding select world gets ◌>>=◌
  select-Selected limit = record {
    run = λ s h. (start_select-Selected limit s.world.selects h.selects).run s h;
  }
