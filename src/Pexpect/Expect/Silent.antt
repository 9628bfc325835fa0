-- ===== src/Pexpect/Expect/Silent.antt =====
-- `expect_loop` writes nothing to the child and leaves the descriptor open or closed as it is.
use custom_shell.Prelude.{ℕ, zero, suc, Bool, true, false, List, [], ◌∷◌, Bytes, Option, none, some}
use custom_shell.Prelude.Int.{ℤ}
use custom_shell.Python.Exec.{Exn}
use custom_shell.Python.Exec.Keeps.{Keeps-bind, Keeps-if, Keeps-try_else}
use custom_shell.Pexpect.Machine.{Arrival, item, end_mark, late, thread_done, M, set_world}
use custom_shell.Pexpect.Kernel.{sleep, now}
use custom_shell.Pexpect.Kernel.Apart.{
  Spares, apart_rules, now-Spares, set_self-Spares, set_world-Spares,
}
use custom_shell.Pexpect.Reading.Silent.{Wire, sleep-Wire, time_left-Wire, read_nonblocking-Wire}
use custom_shell.Pexpect.Expect.{
  Span, Searching, WindowArg, start_thread, look_at_thread, take_arrival, more_from, more,
  next_timeout, read_on, accept, return_or_raise, on_exception, is_over, extend, fresh, round, seek,
  deadline, expect_loop,
}

module _ (F : Type 0) (l : List Bytes) (b : Bool) where
  -- A call that keeps what has been written.
  abbrev Hushed : {A : Type 0} → M A → Type 0
  Hushed m = Spares (Wire F l b) m

  slept : (d : ℕ) → Hushed (sleep d)
  slept = sleep-Wire F l b

  was_read :
      (n : ℕ) (limit : Option ℤ) → Hushed (custom_shell.Pexpect.Reading.read_nonblocking n limit)
  was_read = read_nonblocking-Wire F l b

  left : (t : ℤ) → Hushed (custom_shell.Pexpect.Reading.time_left t)
  left = time_left-Wire F l b

  arrivals-Hushed : (xs : List Arrival) → Hushed (set_world (λ w. record w { arrivals = xs }))
  arrivals-Hushed xs = set_world-Spares _ (λ w h. h)

  start_thread-Hushed : Hushed start_thread
  unfolding start_thread
  start_thread-Hushed = search apart_rules

  look_at_thread-Hushed : (xs : List Arrival) → Hushed (look_at_thread xs)
  unfolding look_at_thread
  look_at_thread-Hushed [] = search apart_rules
  look_at_thread-Hushed (thread_done ∷ rest) = search (apart_rules, arrivals-Hushed)
  look_at_thread-Hushed (item c ∷ rest) = search apart_rules
  look_at_thread-Hushed (end_mark ∷ rest) = search apart_rules
  look_at_thread-Hushed (late ∷ rest) = search apart_rules

  take_arrival-Hushed : (limit : Option ℤ) (xs : List Arrival) → Hushed (take_arrival limit xs)
  unfolding take_arrival
  take_arrival-Hushed limit [] = search (apart_rules, arrivals-Hushed)
  take_arrival-Hushed limit (item c ∷ rest) = search (apart_rules, arrivals-Hushed)
  take_arrival-Hushed limit (end_mark ∷ rest) = search (apart_rules, arrivals-Hushed)
  take_arrival-Hushed none (late ∷ rest) = take_arrival-Hushed none rest
  take_arrival-Hushed (some t) (late ∷ rest) = search (apart_rules, arrivals-Hushed)
  take_arrival-Hushed none (thread_done ∷ rest) =
      Keeps-bind _ _ (set_self-Spares _) (λ _. take_arrival-Hushed none rest)
  take_arrival-Hushed (some t) (thread_done ∷ rest) =
      Keeps-bind _ _ (set_self-Spares _) (λ _. take_arrival-Hushed (some t) rest)

  more_from-Hushed : (drain : Bool) (limit : Option ℤ) → Hushed (more_from drain limit)
  unfolding more_from
  more_from-Hushed true limit = search (apart_rules, take_arrival-Hushed)
  more_from-Hushed false limit = search (apart_rules, was_read, slept)

  more-Hushed : (limit : Option ℤ) → Hushed (more limit)
  unfolding more
  more-Hushed limit = search (apart_rules, look_at_thread-Hushed, more_from-Hushed)

  next_timeout-Hushed : (t : ℤ) (limit : Option ℤ) → Hushed (next_timeout t limit)
  unfolding next_timeout
  next_timeout-Hushed t none = search apart_rules
  next_timeout-Hushed t (some d) = search (apart_rules, left)

  read_on-Hushed : (t : ℤ) (limit : Option ℤ) → Hushed (read_on t limit)
  unfolding read_on
  read_on-Hushed t limit = search (apart_rules, more-Hushed, next_timeout-Hushed)

  accept-Hushed : (incoming : Bytes) (f : Span) → Hushed (accept incoming f)
  unfolding accept
  accept-Hushed incoming f = search apart_rules

  return_or_raise-Hushed : (e : Exn) (index : Option ℕ) → Hushed (return_or_raise e index)
  unfolding return_or_raise
  return_or_raise-Hushed e none = search apart_rules
  return_or_raise-Hushed e (some index) = search apart_rules

  module _ (searcher : Searching) (window : Option ℕ) (end_time : ℤ) where
    on_exception-Hushed : (incoming : Bytes) (e : Exn) → Hushed (on_exception searcher incoming e)
    unfolding on_exception
    on_exception-Hushed incoming Exn.eof = search (apart_rules, return_or_raise-Hushed)
    on_exception-Hushed incoming Exn.timeout = search (apart_rules, return_or_raise-Hushed)
    on_exception-Hushed incoming _ = search apart_rules

    round-Hushed :
        (again : Option ℤ → Bytes → ℕ → M (Option ℕ)) (found : Option Span) (limit : Option ℤ)
        (incoming : Bytes) (freshlen : ℕ)
        → ((t : Option ℤ) (s : Bytes) (n : ℕ) → Hushed (again t s n))
        → Hushed (round searcher window end_time again found limit incoming freshlen)
    unfolding round
    round-Hushed again (some f) limit incoming freshlen k = accept-Hushed incoming f
    round-Hushed again none limit incoming freshlen k =
        Keeps-if (is_over limit) _ _ (on_exception-Hushed incoming Exn.timeout) (
          Keeps-try_else _ _ _ (read_on-Hushed end_time limit) (on_exception-Hushed incoming)
            (λ ct. k ct.1 (extend incoming ct.0) (fresh freshlen ct.0)))

    seek-Hushed :
        (fuel : ℕ) (limit : Option ℤ) (incoming : Bytes) (freshlen : ℕ)
        → Hushed (seek searcher window end_time fuel limit incoming freshlen)
    unfolding seek
    seek-Hushed zero limit incoming freshlen = search apart_rules
    seek-Hushed (suc fuel) limit incoming freshlen =
        round-Hushed (seek searcher window end_time fuel) _ limit incoming freshlen
          (seek-Hushed fuel)

  now-Hushed : Hushed now
  now-Hushed = now-Spares (λ w c ts h. h)

  deadline-Hushed : (limit : Option ℤ) → Hushed (deadline limit)
  unfolding deadline
  deadline-Hushed none = search apart_rules
  deadline-Hushed (some t) = search (apart_rules, now-Hushed)

  pub expect_loop-Hushed :
      (searcher : Searching) (limit : Option ℤ) (arg : WindowArg)
      → Hushed (expect_loop searcher limit arg)
  unfolding expect_loop
  expect_loop-Hushed searcher limit arg =
      search (apart_rules, start_thread-Hushed, deadline-Hushed, seek-Hushed)
