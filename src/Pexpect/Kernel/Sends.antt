-- ===== src/Pexpect/Kernel/Sends.antt =====
-- The signals that a call sends.
use mathlib.Core.List.{Sublist, nil-sublist}
use mathlib.Core.List.Sublist
use custom_shell.Prelude.{
  ℕ, Bool, true, false, List, [], ◌∷◌, ◌++◌, append_assoc, append-nil, Option, none, some, ◌≡◌,
  refl, sym, ap, ◌∙◌, if◌then◌else◌,
}
use custom_shell.Python.Exec.{
  Outcome, ok, raised, blocked, Exn, os_error, pure, raise, block, catch, recover, ◌>>=◌, continue,
}
use custom_shell.Pexpect.Machine.{
  Wait, nothing, changed, World, Spawn, Machine, M, self, set_self, world, set_world,
}
use custom_shell.Pexpect.Kernel.{wait_for_change, take_wait, waitpid, send_signal, os_kill, sleep}

-- What `m` adds to the signals that were sent is some of `plan`, in its order.
pub record Sends {A : Type 0} (plan : List ℕ) (m : M A) : Type 0 where
  pub at :
      (s : Machine) → (k : List ℕ) × ((m s).1.world.signals ≡ s.world.signals ++ k) × Sublist k plan

abbrev pub Adds : List ℕ → Machine → Machine → Type 0
Adds plan s t = (k : List ℕ) × (t.world.signals ≡ s.world.signals ++ k) × Sublist k plan

Adds-refl : (plan : List ℕ) (s : Machine) → Adds plan s s
Adds-refl plan s = ([], sym (append-nil s.world.signals), nil-sublist plan)

Adds-trans : (p q : List ℕ) (s t u : Machine) → Adds p s t → Adds q t u → Adds (p ++ q) s u
Adds-trans p q s t u (k, e, h) (l, f, g) =
    (k ++ l, f ∙ ap (λ x. x ++ l) e ∙ append_assoc s.world.signals k l, Sublist.append h g)

module _ {A : Type 0} where
  pub Sends-pure : (plan : List ℕ) (a : A) → Sends plan (pure a)
  unfolding pure
  Sends-pure plan a = record { at = λ s. Adds-refl plan s }

  pub Sends-raise : (plan : List ℕ) (e : Exn) → Sends plan (raise {A = A} e)
  unfolding raise
  Sends-raise plan e = record { at = λ s. Adds-refl plan s }

  pub Sends-block : (plan : List ℕ) → Sends plan (block {A = A})
  unfolding block
  Sends-block plan = record { at = λ s. Adds-refl plan s }

  pub Sends-if :
      (plan : List ℕ) (b : Bool) (m n : M A)
      → Sends plan m
      → Sends plan n
      → Sends plan (if b then m else n)
  Sends-if plan true m n h k = h
  Sends-if plan false m n h k = k

  pub Sends-catch :
      (p q : List ℕ) (m : M A) (f : Exn → M A)
      → Sends p m
      → ((e : Exn) → Sends q (f e))
      → Sends (p ++ q) (catch m f)
  unfolding catch
  Sends-catch p q m f h k = record { at = λ s. go (m s).0 s (m s).1 (h.at s) }
    where
      go : (o : Outcome A) (s t : Machine) → Adds p s t → Adds (p ++ q) s (recover o f t).1
      go (raised e) s t x = Adds-trans p q s t (f e t).1 x ((k e).at t)
      go (ok a) s t x = Adds-trans p q s t t x (Adds-refl q t)
      go blocked s t x = Adds-trans p q s t t x (Adds-refl q t)

  pub Sends-weaken : (p q : List ℕ) (m : M A) → Sublist p q → Sends p m → Sends q m
  Sends-weaken p q m h k = record { at = λ s. let (l, e, g) = k.at s in (l, e, Sublist.trans g h) }

module _ {A B : Type 0} where
  pub Sends-bind :
      (p q : List ℕ) (m : M A) (f : A → M B)
      → Sends p m
      → ((a : A) → Sends q (f a))
      → Sends (p ++ q) (m >>= f)
  unfolding ◌>>=◌
  Sends-bind p q m f h k = record { at = λ s. go (m s).0 s (m s).1 (h.at s) }
    where
      go : (o : Outcome A) (s t : Machine) → Adds p s t → Adds (p ++ q) s (continue o f t).1
      go (ok a) s t x = Adds-trans p q s t (f a t).1 x ((k a).at t)
      go (raised e) s t x = Adds-trans p q s t t x (Adds-refl q t)
      go blocked s t x = Adds-trans p q s t t x (Adds-refl q t)

-- Most calls send nothing.
pub set_world-quiet :
    (f : World → World) → ((w : World) → (f w).signals ≡ w.signals) → Sends [] (set_world f)
unfolding set_world
set_world-quiet f h = record {
  at = λ s. ([], h s.world ∙ sym (append-nil s.world.signals), nil-sublist []);
}

pub set_self-quiet : (f : Spawn → Spawn) → Sends [] (set_self f)
unfolding set_self
set_self-quiet f = record { at = λ s. Adds-refl [] s }

pub self-quiet : Sends [] self
unfolding self
self-quiet = record { at = λ s. Adds-refl [] s }

world-quiet : Sends [] world
unfolding world
world-quiet = record { at = λ s. Adds-refl [] s }

module _ {A B : Type 0} where
  -- Between quiet calls, a plan stands for one call alone.
  pub Sends-quiet_first :
      (q : List ℕ) (m : M A) (f : A → M B)
      → Sends [] m
      → ((a : A) → Sends q (f a))
      → Sends q (m >>= f)
  Sends-quiet_first q m f h k = Sends-bind [] q m f h k

wait_for_change-quiet : (ws : List Wait) → Sends [] (wait_for_change ws)
unfolding wait_for_change
wait_for_change-quiet [] =
    Sends-quiet_first [] _ _ (set_world-quiet _ (λ w. refl)) (λ _. Sends-block [])
wait_for_change-quiet (Wait.failed errno ∷ rest) =
    Sends-quiet_first [] _ _ (set_world-quiet _ (λ w. refl)) (λ _. Sends-raise [] (os_error errno))
wait_for_change-quiet (nothing ∷ rest) = wait_for_change-quiet rest
wait_for_change-quiet (changed status ∷ rest) =
    Sends-quiet_first [] _ _ (set_world-quiet _ (λ w. refl)) (λ _. Sends-pure [] status)

take_wait-quiet : (ws : List Wait) → Sends [] (take_wait ws)
unfolding take_wait
take_wait-quiet [] = Sends-pure [] none
take_wait-quiet (Wait.failed errno ∷ rest) =
    Sends-quiet_first [] _ _ (set_world-quiet _ (λ w. refl)) (λ _. Sends-raise [] (os_error errno))
take_wait-quiet (nothing ∷ rest) =
    Sends-quiet_first [] _ _ (set_world-quiet _ (λ w. refl)) (λ _. Sends-pure [] none)
take_wait-quiet (changed status ∷ rest) =
    Sends-quiet_first [] _ _ (set_world-quiet _ (λ w. refl)) (λ _. Sends-pure [] (some status))

pub waitpid-quiet : (blocking : Bool) → Sends [] (waitpid blocking)
unfolding waitpid
waitpid-quiet true = Sends-quiet_first [] _ _ world-quiet (λ w.
    Sends-quiet_first [] _ _ (wait_for_change-quiet w.waits)
      (λ status. Sends-pure [] (some status)))
waitpid-quiet false = Sends-quiet_first [] _ _ world-quiet (λ w. take_wait-quiet w.waits)

pub sleep-quiet : (d : ℕ) → Sends [] (sleep d)
unfolding sleep
sleep-quiet d = set_world-quiet _ (λ w. refl)

send_signal-Sends : (sig : ℕ) (ks : List (Option ℕ)) → Sends (sig ∷ []) (send_signal sig ks)
unfolding send_signal set_world ◌>>=◌ raise
send_signal-Sends sig [] = record { at = λ s. (sig ∷ [], refl, Sublist.refl _) }
send_signal-Sends sig (none ∷ rest) = record { at = λ s. (sig ∷ [], refl, Sublist.refl _) }
send_signal-Sends sig (some errno ∷ rest) = record { at = λ s. Adds-refl (sig ∷ []) s }

pub os_kill-Sends : (sig : ℕ) → Sends (sig ∷ []) (os_kill sig)
unfolding os_kill
os_kill-Sends sig =
    Sends-quiet_first (sig ∷ []) _ _ world-quiet (λ w. send_signal-Sends sig w.kills)
