-- ===== src/Pexpect/Lifecycle/Verdict.antt =====
-- What the answer of `isalive` means.
use custom_shell.Prelude.{
  ℕ, zero, suc, Bool, true, false, List, [], ◌∷◌, Option, none, some, ◌==◌, ◌≡◌, ◌⊎◌, inl, inr,
  refl, sym, ap, ◌∙◌, subst, Any, Bool-cases, if◌then◌else◌,
}
use custom_shell.Python.Exec.{
  Exn, os_error, pexpect_error, Outcome, ok, raised, blocked, pure, raise, block, gets, modify,
  catch, recover, continue, ◌>>=◌,
}
use custom_shell.Python.Exec.Triple.{Post}
use custom_shell.Pexpect.Machine.{
  Wait, nothing, changed, Spawn, Machine, self, set_self, world, set_world,
}
use custom_shell.Pexpect.Kernel.{
  w_if_exited, w_exit_status, w_if_signaled, w_term_sig, w_if_stopped, wait_for_change, take_wait,
  waitpid,
}
use custom_shell.Pexpect.Lifecycle.{record_status, on_wait_error, poll, conclude, again, isalive}

-- The kernel has such an answer for `waitpid`.
abbrev pub Answers : Machine → Wait → Type 0
Answers m a = Any (λ x. x ≡ a) m.world.waits

-- The next answers, if there are any, report nothing.
abbrev pub Silent : ℕ → List Wait → Type 0
Silent zero answers = Unit
Silent (suc n) [] = Unit
Silent (suc n) (nothing ∷ answers) = Silent n answers
Silent (suc n) _ = ⊥

-- What a status does to the attributes, if it is not that of a stopped child.
abbrev pub Recorded : ℕ → Spawn → Spawn → Type 0
Recorded status s t =
    ((w_if_exited status ≡ true)
      × (t ≡ record s {
        status = some status;
        exitstatus = some (w_exit_status status);
        signalstatus = none;
        terminated = true;
      }))
    ⊎ ((w_if_exited status ≡ false)
        × (w_if_signaled status ≡ true)
        × (t ≡ record s {
          status = some status;
          exitstatus = none;
          signalstatus = some (w_term_sig status);
          terminated = true;
        }))
    ⊎ ((w_if_exited status ≡ false)
        × (w_if_signaled status ≡ false)
        × (w_if_stopped status ≡ false)
        × (t ≡ s))

abbrev pub IsStopped : ℕ → Type 0
IsStopped status =
    (w_if_exited status ≡ false) × (w_if_signaled status ≡ false) × (w_if_stopped status ≡ true)

-- The exception for an errno of `waitpid`.
abbrev pub wait_error : ℕ → Exn
wait_error errno = if errno == 10 then pexpect_error else os_error errno

abbrev WaitFailed : Machine → Exn → Type 0
WaitFailed m e = (errno : ℕ) × Answers m (Wait.failed errno) × (e ≡ wait_error errno)

-- What an outcome says of the kernel's answers, and of the attributes before and after.
abbrev pub Verdict : Machine → Outcome Bool → Machine → Type 0
Verdict m (ok true) n =
    (n.self ≡ m.self)
    × (m.self.terminated ≡ false)
    × (m.self.flag_eof ≡ false)
    × Silent 2 m.world.waits
Verdict m (ok false) n =
    ((m.self.terminated ≡ true) × (n ≡ m))
    ⊎ ((m.self.terminated ≡ false)
        × ((status : ℕ) × Answers m (changed status) × Recorded status m.self n.self))
Verdict m (raised e) n =
    (n.self ≡ m.self)
    × (m.self.terminated ≡ false)
    × (((status : ℕ) × Answers m (changed status) × IsStopped status × (e ≡ pexpect_error))
        ⊎ WaitFailed m e)
Verdict m blocked n = (n.self ≡ m.self) × (m.self.terminated ≡ false) × (m.self.flag_eof ≡ true)

-- One call of `waitpid`, with its handler.
abbrev Polled : Bool → Machine → Outcome (Option ℕ) → Machine → Type 0
Polled blocking m (ok none) n =
    (n.self ≡ m.self)
    × (blocking ≡ false)
    × ((k : ℕ) → Silent k n.world.waits → Silent (suc k) m.world.waits)
    × ((a : Wait) → Answers n a → Answers m a)
Polled blocking m (ok (some status)) n = (n.self ≡ m.self) × Answers m (changed status)
Polled blocking m (raised e) n = (n.self ≡ m.self) × WaitFailed m e
Polled blocking m blocked n = (n.self ≡ m.self) × (blocking ≡ true)

-- The same, before the handler.
abbrev Refused : Machine → Option Exn → Machine → Type 0
Refused m none n = n.self ≡ m.self
Refused m (some e) n =
    (n.self ≡ m.self) × ((errno : ℕ) × Answers m (Wait.failed errno) × (e ≡ os_error errno))

abbrev Took : Machine → Option ℕ → Machine → Type 0
Took m none n =
    (n.self ≡ m.self)
    × ((k : ℕ) → Silent k n.world.waits → Silent (suc k) m.world.waits)
    × ((a : Wait) → Answers n a → Answers m a)
Took m (some status) n = (n.self ≡ m.self) × Answers m (changed status)

module _ (m : Machine) where
  wait-Took :
      (answers : List Wait)
      → ((a : Wait) → Any (λ x. x ≡ a) answers → Answers m a)
      → Post
          (λ status. Took m (some status))
          (Refused m)
          (wait_for_change answers m).0
          (wait_for_change answers m).1
  unfolding wait_for_change set_world modify ◌>>=◌ pure raise block
  wait-Took [] h = refl
  wait-Took (Wait.failed errno ∷ rest) h = (refl, (errno, h (Wait.failed errno) (inl refl), refl))
  wait-Took (nothing ∷ rest) h = wait-Took rest (λ a k. h a (inr k))
  wait-Took (changed status ∷ rest) h = (refl, h (changed status) (inl refl))

  take-Took :
      (answers : List Wait)
      → m.world.waits ≡ answers
      → Post (Took m) (Refused m) (take_wait answers m).0 (take_wait answers m).1
  unfolding take_wait set_world modify ◌>>=◌ pure raise
  take-Took [] e = (refl, (λ k h. rw e tt), (λ a h. h))
  take-Took (Wait.failed errno ∷ rest) e = (refl, (errno, rw e (inl refl), refl))
  take-Took (nothing ∷ rest) e = (refl, (λ k h. rw e h), (λ a h. rw e (inr h)))
  take-Took (changed status ∷ rest) e = (refl, rw e (inl refl))

  -- The handler makes of the errno what it raises.
  caught :
      (errno : ℕ) (n : Machine)
      → n.self ≡ m.self
      → Answers m (Wait.failed errno)
      → (blocking : Bool)
      → Polled blocking m (on_wait_error (os_error errno) n).0 (on_wait_error (os_error errno) n).1
  unfolding on_wait_error raise
  caught errno n e a blocking = elim (Bool-cases (errno == 10)) [
    | inl t ↦ rw t (e, (errno, a, rw t refl))
    | inr f ↦ rw f (e, (errno, a, rw f refl))
  ]

  wait-Polled :
      (o : Outcome ℕ) (n : Machine)
      → Post (λ status. Took m (some status)) (Refused m) o n
      → Polled true m
          (recover
            (continue o (λ status. pure (some status)) n).0
            on_wait_error
            (continue o (λ status. pure (some status)) n).1).0
          (recover
            (continue o (λ status. pure (some status)) n).0
            on_wait_error
            (continue o (λ status. pure (some status)) n).1).1
  unfolding pure
  wait-Polled (ok status) n h = h
  wait-Polled (raised e) n (same, (errno, a, k)) =
      subst (λ x. Polled true m (on_wait_error x n).0 (on_wait_error x n).1) (sym k)
        (caught errno n same a true)
  wait-Polled blocked n h = (h, refl)

  take-Polled :
      (o : Outcome (Option ℕ)) (n : Machine)
      → Post (Took m) (Refused m) o n
      → (o ≡ blocked → ⊥)
      → Polled false m (recover o on_wait_error n).0 (recover o on_wait_error n).1
  take-Polled (ok none) n (same, silent, seen) b = (same, refl, silent, seen)
  take-Polled (ok (some status)) n h b = h
  take-Polled (raised e) n (same, (errno, a, k)) b =
      subst (λ x. Polled false m (on_wait_error x n).0 (on_wait_error x n).1) (sym k)
        (caught errno n same a false)
  take-Polled blocked n h b = absurd (b refl)

  take-returns : (answers : List Wait) → (take_wait answers m).0 ≡ blocked → ⊥
  unfolding take_wait set_world modify ◌>>=◌ pure raise
  take-returns [] e = cc
  take-returns (Wait.failed errno ∷ rest) e = cc
  take-returns (nothing ∷ rest) e = cc
  take-returns (changed status ∷ rest) e = cc

  poll-Polled : (blocking : Bool) → Polled blocking m (poll blocking m).0 (poll blocking m).1
  unfolding poll waitpid world gets catch ◌>>=◌
  poll-Polled true =
      wait-Polled (wait_for_change m.world.waits m).0 (wait_for_change m.world.waits m).1
        (wait-Took m.world.waits (λ a h. h))
  poll-Polled false =
      take-Polled (take_wait m.world.waits m).0 (take_wait m.world.waits m).1
        (take-Took m.world.waits refl) (take-returns m.world.waits)

-- Behind a status that was reported.
status-Verdict :
    (m n : Machine) (status : ℕ)
    → m.self.terminated ≡ false
    → n.self ≡ m.self
    → Answers m (changed status)
    → Verdict m (conclude (some status) n).0 (conclude (some status) n).1
unfolding conclude record_status set_self modify ◌>>=◌ pure raise
status-Verdict m n status h same a = elim (Bool-cases (w_if_exited status)) [
  | inl e ↦ rw e (inr (h, (status, a, inl (e, rw same refl))))
  | inr x ↦ rw x (elim (Bool-cases (w_if_signaled status)) [
    | inl e ↦ rw e (inr (h, (status, a, inr (inl (x, e, rw same refl)))))
    | inr k ↦ rw k (elim (Bool-cases (w_if_stopped status)) [
      | inl e ↦ rw e (same, h, inl (status, a, (x, k, e), refl))
      | inr l ↦ rw l (inr (h, (status, a, inr (inr (x, k, l, same)))))
    ])
  ])
]

module _ (m : Machine) (h : m.self.terminated ≡ false) where
  abbrev eof_seen : Bool
  eof_seen = m.self.flag_eof

  -- The second call, where the first one has reported nothing.
  second-Verdict :
      (k : Machine)
      → (first : Polled eof_seen m (ok none) k) → (o : Outcome (Option ℕ)) (n : Machine)
      → Polled eof_seen k o n
      → Verdict m (continue o conclude n).0 (continue o conclude n).1
  unfolding conclude pure
  second-Verdict k (same, quick, silent, seen) (ok none) n (again, q, s, t) =
      (again ∙ same, h, quick, silent 1 (s 0 tt))
  second-Verdict k (same, quick, silent, seen) (ok (some status)) n (again, a) =
      status-Verdict m n status h (again ∙ same) (seen (changed status) a)
  second-Verdict k (same, quick, silent, seen) (raised e) n (again, (errno, a, x)) =
      (again ∙ same, h, inr (errno, seen (Wait.failed errno) a, x))
  second-Verdict k (same, quick, silent, seen) blocked n (again, b) = (again ∙ same, h, b)

  first-Verdict :
      (o : Outcome (Option ℕ)) (n : Machine)
      → Polled eof_seen m o n
      → Verdict m (continue o (again eof_seen) n).0 (continue o (again eof_seen) n).1
  unfolding again ◌>>=◌
  first-Verdict (ok none) n p =
      second-Verdict n p (poll eof_seen n).0 (poll eof_seen n).1 (poll-Polled n eof_seen)
  first-Verdict (ok (some status)) n (same, a) = status-Verdict m n status h same a
  first-Verdict (raised e) n (same, f) = (same, h, inr f)
  first-Verdict blocked n (same, b) = (same, h, b)

  running_step : isalive m ≡ (poll eof_seen >>= again eof_seen) m
  unfolding isalive self gets ◌>>=◌
  running_step =
      ap (λ b. (if b then pure false else (poll m.self.flag_eof >>= again m.self.flag_eof)) m) h

  running-Verdict : Verdict m (isalive m).0 (isalive m).1
  unfolding ◌>>=◌
  running-Verdict =
      subst (λ (r : Outcome Bool × Machine). Verdict m r.0 r.1) (sym running_step)
        (first-Verdict (poll eof_seen m).0 (poll eof_seen m).1 (poll-Polled m eof_seen))

-- Once the child is known to have ended, the kernel is not asked again.
pub isalive_ended : (m : Machine) → m.self.terminated ≡ true → isalive m ≡ (ok false, m)
unfolding isalive self gets ◌>>=◌ pure
isalive_ended m h = rw h refl

-- What `isalive` answers of a child that is not known to have ended: true only where the first two answers
-- of `waitpid` report nothing and no EOF was seen, and no attribute changes; false only for a status that
-- `waitpid` has reported, which is recorded if it is that of an exit or of a signal, and changes no
-- attribute if it is of no known kind; `ExceptionPexpect` for the status of a stopped child and for
-- ECHILD, and the `OSError` for any other errno of `waitpid`, and no attribute changes. Only after an EOF
-- may it wait for ever. Of a child that is known to have ended it answers false, and nothing changes.
pub isalive-Verdict : (m : Machine) → Verdict m (isalive m).0 (isalive m).1
isalive-Verdict m = elim (Bool-cases m.self.terminated) [
  | inl e ↦ rw (isalive_ended m e) (inl (e, refl))
  | inr e ↦ running-Verdict m e
]
