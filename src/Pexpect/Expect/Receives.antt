-- ===== src/Pexpect/Expect/Receives.antt =====
-- Where the text comes from that `expect_loop` looks at.
use custom_shell.Prelude.{
  ℕ, suc, ◌≤◌, Bool, true, false, List, [], ◌∷◌, ◌++◌, append_assoc, Bytes, Option, none, some,
  length, ◌≡◌, refl, sym, ap, ◌∙◌, arith,
}
use custom_shell.Prelude.Int.{ℤ, pos, ◌-ℤ◌}
use custom_shell.Python.Exec.{Outcome, ok, raised, blocked, pure, block, gets, ◌>>=◌}
use custom_shell.Python.Exec.Triple.{Triple, Post, Triple-pure, Triple-bind}
use custom_shell.Pexpect.Machine.{
  Arrival, item, end_mark, late, thread_done, Read, World, Machine, self, set_self, world,
  set_world,
}
use custom_shell.Pexpect.Kernel.{now, sleep}
use custom_shell.Pexpect.Kernel.Apart.{now-Triple}
use custom_shell.Pexpect.Reading.{read_nonblocking, time_left}
use custom_shell.Pexpect.Reading.Selected.{pending, Steady, Steady-refl}
use custom_shell.Pexpect.Reading.Account.{Delivered, read_nonblocking-Delivered}
use custom_shell.Pexpect.Expect.{
  look_at_thread, take_arrival, more_from, more, next_timeout, read_on, extend,
}
use custom_shell.Pexpect.Expect.Received.{
  queued, queue_piece, read_piece, Received, size, Got, Has, Came,
}

module _ (w : World) (got : Bytes) where
  same_queue :
      {xs ys : List Arrival} {rs : List Read}
      → queued xs ≡ queued ys
      → Received w got xs rs
      → Received w got ys rs
  same_queue e h = record {
    from_queue = h.from_queue;
    from_child = h.from_child;
    merged = h.merged;
    queue = h.queue ∙ ap (λ x. h.from_queue ++ x) e;
    child = h.child;
  }

  from_thread :
      {xs : List Arrival} {rs : List Read} (c : Bytes) (rest : List Arrival)
      → queued xs ≡ c ++ queued rest
      → Received w got xs rs
      → Received w (got ++ c) rest rs
  from_thread c rest e h = record {
    from_queue = h.from_queue ++ c;
    from_child = h.from_child;
    merged = queue_piece c h.merged;
    queue =
        h.queue ∙ ap (λ x. h.from_queue ++ x) e ∙ sym (append_assoc h.from_queue c (queued rest));
    child = h.child;
  }

  from_read :
      (s : Machine) (v : World) (c : Bytes)
      → Delivered s.world c v
      → Got w got s
      → Received w (got ++ c) v.arrivals v.reads
  from_read s v c d h = record {
    from_queue = h.from_queue;
    from_child = h.from_child ++ c;
    merged = read_piece c h.merged;
    queue = h.queue ∙ ap (λ x. h.from_queue ++ queued x) (sym d.arrivals);
    child =
        h.child
        ∙ ap (λ x. h.from_child ++ x) d.reads
        ∙ sym (append_assoc h.from_child c (pending v.reads));
  }

  unread :
      (s : Machine) (v : World) → Steady s.world v → Got w got s → Received w got v.arrivals v.reads
  unread s v d h = record {
    from_queue = h.from_queue;
    from_child = h.from_child;
    merged = h.merged;
    queue = h.queue ∙ ap (λ x. h.from_queue ++ queued x) (sym d.arrivals);
    child = h.child ∙ ap (λ x. h.from_child ++ x) (sym d.reads);
  }

  look_at_thread-Has :
      (k : ℕ) (xs : List Arrival) (s : Machine)
      → s.world.arrivals ≡ xs
      → Has w got k s
      → Post (λ _. Has w got k) (λ _. Got w got) (look_at_thread xs s).0 (look_at_thread xs s).1
  unfolding look_at_thread self set_self set_world ◌>>=◌ pure
  look_at_thread-Has k [] s e h = h
  look_at_thread-Has k (item c ∷ rest) s e h = h
  look_at_thread-Has k (end_mark ∷ rest) s e h = h
  look_at_thread-Has k (late ∷ rest) s e h = h
  look_at_thread-Has k (thread_done ∷ rest) s e h =
      (same_queue (ap queued e) h.0, omega (arith, h.1, ap length e))

  take_arrival-Came :
      (k : ℕ) (timeout : Option ℤ) (xs : List Arrival) (s : Machine)
      → queued s.world.arrivals ≡ queued xs
      → length xs ≤ length s.world.arrivals
      → Has w got k s
      → Post
          (Came w got k)
          (λ _. Got w got)
          (take_arrival timeout xs s).0
          (take_arrival timeout xs s).1
  unfolding take_arrival set_self set_world ◌>>=◌ pure block
  take_arrival-Came k timeout [] s e l h = same_queue e h.0
  take_arrival-Came k timeout (item c ∷ rest) s e l h =
      (from_thread c rest e h.0, omega (arith, h.1, l))
  take_arrival-Came k timeout (end_mark ∷ rest) s e l h = (same_queue e h.0, omega (arith, h.1, l))
  take_arrival-Came k none (late ∷ rest) s e l h =
      take_arrival-Came k none rest s e (omega (arith, l)) h
  take_arrival-Came k (some t) (late ∷ rest) s e l h = (same_queue e h.0, omega (arith, h.1, l))
  take_arrival-Came k timeout (thread_done ∷ rest) s e l h =
      take_arrival-Came k timeout rest (record s { self = record s.self { drainpty = false } }) e
        (omega (arith, l)) h

  read_child-Came :
      (k : ℕ) (amount : ℕ) (timeout : Option ℤ)
      → Triple
          (Has w got k)
          (read_nonblocking amount timeout)
          (λ c. Came w got k (some c))
          (λ _. Got w got)
  read_child-Came k amount timeout = record {
    run = λ s h.
        go s h (read_nonblocking amount timeout s).0 (read_nonblocking amount timeout s).1
          ((read_nonblocking-Delivered s.world amount timeout).run s (Steady-refl s.world));
  }
    where
      go :
          (s : Machine) (h : Has w got k s) (o : Outcome Bytes) (t : Machine)
          → Post (λ c m. Delivered s.world c m.world) (λ _ m. Steady s.world m.world) o t
          → Post (λ c. Came w got k (some c)) (λ _. Got w got) o t
      go s h (ok c) t d =
          (from_read s t.world c d h.0, omega (arith, h.1, d.fewer, ap length d.arrivals))
      go s h (raised e) t d = unread s t.world d h.0
      go s h blocked t d = unread s t.world d h.0

  sleep-Came :
      (k : ℕ) (c : Option Bytes) (d : ℕ)
      → Triple (Came w got k c) (sleep d) (λ _. Came w got k c) (λ _. Got w got)
  unfolding sleep set_world
  sleep-Came k c d = record { run = λ s h. h }

  self-Has : (k : ℕ) → Triple (Has w got k) self (λ _. Has w got k) (λ _. Got w got)
  unfolding self gets
  self-Has k = record { run = λ s h. h }

  more_from-Came :
      (k : ℕ) (drain : Bool) (timeout : Option ℤ)
      → Triple (Has w got k) (more_from drain timeout) (Came w got k) (λ _. Got w got)
  unfolding more_from world gets ◌>>=◌
  more_from-Came k true timeout = record {
    run = λ s h. take_arrival-Came k timeout s.world.arrivals s refl (omega arith) h;
  }
  more_from-Came k false timeout = Triple-bind self _ (self-Has k) (λ s.
      Triple-bind _ _ (read_child-Came k s.maxread timeout)
        (λ c. Triple-bind _ _ (sleep-Came k (some c) 100) (λ _. Triple-pure (some c) (λ m h. h))))

  world-Has :
      (k : ℕ)
      → Triple
          (Has w got k)
          world
          (λ v m. Has w got k m × (m.world.arrivals ≡ v.arrivals))
          (λ _. Got w got)
  unfolding world gets
  world-Has k = record { run = λ s h. (h, refl) }

  look-Has :
      (k : ℕ) (v : World)
      → Triple
          (λ m. Has w got k m × (m.world.arrivals ≡ v.arrivals))
          (look_at_thread v.arrivals)
          (λ _. Has w got k)
          (λ _. Got w got)
  look-Has k v = record { run = λ s h. look_at_thread-Has k v.arrivals s h.1 h.0 }

  more-Came :
      (k : ℕ) (timeout : Option ℤ)
      → Triple (Has w got k) (more timeout) (Came w got k) (λ _. Got w got)
  unfolding more
  more-Came k timeout = Triple-bind world _ (world-Has k) (λ v.
      Triple-bind (look_at_thread v.arrivals) _ (look-Has k v)
        (λ drain. more_from-Came k drain timeout))

  now-Came :
      (k : ℕ) (c : Option Bytes)
      → Triple (Came w got k c) now (λ _. Came w got k c) (λ _. Got w got)
  now-Came k c =
      now-Triple {Q = λ v. Received w (extend got c) v.arrivals v.reads × (suc (size v) ≤ k)}
        (λ v x ts h. h)

  next_timeout-Came :
      (k : ℕ) (c : Option Bytes) (end_time : ℤ) (timeout : Option ℤ)
      → Triple
          (Came w got k c)
          (next_timeout end_time timeout)
          (λ _. Came w got k c)
          (λ _. Got w got)
  unfolding next_timeout time_left
  next_timeout-Came k c end_time none = Triple-pure none (λ s h. h)
  next_timeout-Came k c end_time (some t) =
      Triple-bind _ _
        (Triple-bind now _ (now-Came k c) (λ t. Triple-pure (end_time -ℤ pos t) (λ s h. h)))
        (λ left. Triple-pure (some left) (λ s h. h))

  pub read_on-Came :
      (k : ℕ) (end_time : ℤ) (timeout : Option ℤ)
      → Triple (Has w got k) (read_on end_time timeout) (λ r. Came w got k r.0) (λ _. Got w got)
  unfolding read_on
  read_on-Came k end_time timeout = Triple-bind (more timeout) _ (more-Came k timeout) (λ c.
      Triple-bind _ _ (next_timeout-Came k c end_time timeout) (λ t. Triple-pure (c, t) (λ s h. h)))
