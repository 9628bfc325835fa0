-- ===== src/Pexpect/Lifecycle/Ages.antt =====
-- The life of the child as a state machine, which the methods of `spawn` follow.
use custom_shell.Prelude.{
  ℕ, Bool, true, false, List, [], ◌∷◌, Option, none, some, ◌≡◌, refl, sym, ap, ◌∙◌, subst,
  if◌then◌else◌,
}
use custom_shell.Python.Exec.{
  Outcome, ok, raised, pexpect_error, ◌>>=◌, pure, gets, raise, continue,
}
use custom_shell.Python.Exec.Keeps.{Keeps-if_test}
use custom_shell.Pexpect.Machine.{Spawn, Machine, self}
use custom_shell.Pexpect.Kernel.{w_if_exited, w_exit_status, w_if_signaled, w_term_sig, waitpid}
use custom_shell.Pexpect.Kernel.Frame.{Leaves, kernel_rules, set_self-Leaves}
use custom_shell.Pexpect.Lifecycle.{
  record_status, isalive, kill, terminate, finish_wait, wait, close, delete,
}
use custom_shell.Pexpect.Lifecycle.Frame.{
  isalive-Leaves, kill-Leaves, terminate-Leaves, close-Leaves, delete-Leaves,
}
use custom_shell.Pexpect.Lifecycle.Waited.{wait-Leaves}

-- As far as the program knows: the child runs, or it has ended, with `status`, `exitstatus` and
-- `signalstatus`.
pub data Life : Type 0 where
  running : Life
  ended : Option ℕ → Option ℕ → Option ℕ → Life

abbrev pub life : Spawn → Life
life s = if s.terminated then ended s.status s.exitstatus s.signalstatus else running

-- A child ends once: by an exit or by a signal, as the status tells; then all stays as it is.
pub data Ages : Life → Life → Type 0 where
  stays : (l : Life) → Ages l l
  exits :
      (status : ℕ)
      → w_if_exited status ≡ true
      → Ages running (ended (some status) (some (w_exit_status status)) none)
  dies :
      (status : ℕ)
      → w_if_exited status ≡ false
      → w_if_signaled status ≡ true
      → Ages running (ended (some status) none (some (w_term_sig status)))

Ages-trans : {a b c : Life} → Ages a b → Ages b c → Ages a c
Ages-trans (stays l) k = k
Ages-trans (exits status e) (stays _) = exits status e
Ages-trans (dies status d e) (stays _) = dies status d e

-- From a running child.
abbrev FromRunning : Spawn → Type 0
FromRunning s = Ages running (life s)

recording-FromRunning : (status : ℕ) → Leaves FromRunning (record_status status)
unfolding record_status
recording-FromRunning status =
    Keeps-if_test (w_if_exited status) _ _ (λ e. set_self-Leaves _ (λ s h. exits status e))
      (λ d.
        Keeps-if_test (w_if_signaled status) _ _ (λ e. set_self-Leaves _ (λ s h. dies status d e))
          (λ _. search kernel_rules))

life-running : (s : Spawn) → s.terminated ≡ false → life s ≡ running
life-running s e =
    ap (λ (b : Bool). if b then ended s.status s.exitstatus s.signalstatus else running) e

running-FromRunning : (s : Spawn) → s.terminated ≡ false → FromRunning s
running-FromRunning s e = subst (Ages running) (sym (life-running s e)) (stays running)

-- Of a child that is known to have ended, `isalive` says so and changes nothing, and `wait` raises.
isalive_of_ended : (m : Machine) → m.self.terminated ≡ true → isalive m ≡ (ok false, m)
unfolding isalive self gets ◌>>=◌ pure
isalive_of_ended m e = rw e refl

wait_of_ended : (m : Machine) → m.self.terminated ≡ true → wait m ≡ (raised pexpect_error, m)
unfolding wait ◌>>=◌ raise
wait_of_ended m e =
    ap
      (λ (r : Outcome Bool × Machine).
        continue r.0 (λ alive. if alive then waitpid true >>= finish_wait else raise pexpect_error)
          r.1)
      (isalive_of_ended m e)

module _ (status exit signal : Option ℕ) where
  abbrev HasEnded : Spawn → Type 0
  HasEnded s = life s ≡ ended status exit signal

  HasEnded-terminated : (b : Bool) (s : Spawn) → s.terminated ≡ b → HasEnded s → s.terminated ≡ true
  HasEnded-terminated true s e h = e
  HasEnded-terminated false s e h = absurd (cc (sym h ∙ life-running s e))

  isalive-HasEnded : Leaves HasEnded isalive
  isalive-HasEnded = record {
    at = λ m h.
        subst (λ (r : Outcome Bool × Machine). HasEnded r.1.self)
          (sym (isalive_of_ended m (HasEnded-terminated m.self.terminated m.self refl h))) h;
  }

  wait-HasEnded : Leaves HasEnded wait
  wait-HasEnded = record {
    at = λ m h.
        subst (λ (r : Outcome (Option ℕ) × Machine). HasEnded r.1.self)
          (sym (wait_of_ended m (HasEnded-terminated m.self.terminated m.self refl h))) h;
  }

-- The calls by which a script looks at the child and ends it.
pub data LifeCall : Type 0 where
  look : LifeCall
  kill_with : ℕ → LifeCall
  end : Bool → LifeCall
  await : LifeCall
  shut : Bool → LifeCall
  drop : LifeCall

-- The state after a call, however it ends.
abbrev pub after_call : LifeCall → Machine → Machine
after_call look m = (isalive m).1
after_call (kill_with sig) m = (kill sig m).1
after_call (end force) m = (terminate force m).1
after_call await m = (wait m).1
after_call (shut force) m = (close force m).1
after_call drop m = (delete m).1

-- A script that goes on behind exceptions.
abbrev pub after_calls : List LifeCall → Machine → Machine
after_calls [] m = m
after_calls (c ∷ calls) m = after_calls calls (after_call c m)

-- What `isalive` and `wait` keep, and what does not ask for the attributes that `close` changes.
module _ {Q : Spawn → Type 0} (looking : Leaves Q isalive) (waiting : Leaves Q wait)
    (stopping : (s : Spawn) → Q s → Q (record s { keep_reading = false }))
    (closing : (s : Spawn) → Q s → Q (record s { child_fd = none; closed = true })) where
  call-Leaves : (c : LifeCall) (m : Machine) → Q m.self → Q (after_call c m).self
  call-Leaves look m h = looking.at m h
  call-Leaves (kill_with sig) m h = (kill-Leaves looking sig).at m h
  call-Leaves (end force) m h = (terminate-Leaves looking force).at m h
  call-Leaves await m h = waiting.at m h
  call-Leaves (shut force) m h = (close-Leaves looking stopping closing force).at m h
  call-Leaves drop m h = (delete-Leaves looking stopping closing).at m h

call-Ages :
    (c : LifeCall) (m : Machine) (l : Life) → life m.self ≡ l → Ages l (life (after_call c m).self)
call-Ages c m running e =
    call-Leaves (isalive-Leaves recording-FromRunning)
      (wait-Leaves recording-FromRunning running-FromRunning) (λ s h. h) (λ s h. h) c m
      (subst (Ages running) (sym e) (stays running))
call-Ages c m (ended status exit signal) e =
    subst (Ages (ended status exit signal))
      (sym (
        call-Leaves (isalive-HasEnded status exit signal) (wait-HasEnded status exit signal)
          (λ s h. h) (λ s h. h) c m e))
      (stays (ended status exit signal))

-- In any sequence of calls of `isalive`, `kill`, `terminate`, `wait`, `close` and `__del__`, however each
-- of them ends and whatever the kernel answers, the child lives by the state machine `Ages`: it is
-- running, and later it may have ended, by an exit or by a signal, with the attributes that its status
-- tells; from then on none of `status`, `exitstatus`, `signalstatus` and `terminated` changes.
pub after_calls-Ages :
    (calls : List LifeCall) (m : Machine) → Ages (life m.self) (life (after_calls calls m).self)
after_calls-Ages [] m = stays (life m.self)
after_calls-Ages (c ∷ calls) m =
    Ages-trans (call-Ages c m (life m.self) refl) (after_calls-Ages calls (after_call c m))
