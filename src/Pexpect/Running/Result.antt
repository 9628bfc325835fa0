-- ===== src/Pexpect/Running/Result.antt =====
-- What `run` returns.
use mathlib.Core.List.{flatten}
use custom_shell.Prelude.{
  ℕ, zero, suc, ◌<◌, false, List, [], ◌∷◌, ◌++◌, Bytes, Option, none, some, flatten-push, get_elem?,
  if◌then◌else◌, ◌≡◌, inr, refl, sym, ap, subst, arith,
}
use custom_shell.Prelude.Int.{negsuc}
use custom_shell.Python.Exec.{type_error, pure, raise, gets, try_else, ◌>>=◌}
use custom_shell.Python.Exec.Triple.{
  Triple, Post, Triple-to, Triple-both, Triple-pure, Triple-raise, Triple-bind, Triple-if,
  Triple-at, Triple-from, Triple-try_else,
}
use custom_shell.Pexpect.Machine.{matched, Machine, M, self}
use custom_shell.Pexpect.Expect.{window_of}
use custom_shell.Pexpect.Expect.Taken.{bytes_left, Taken, Taken-nothing, Taken-trans}
use custom_shell.Pexpect.Patterns.{Patterns, expect}
use custom_shell.Pexpect.Sending.Quiet.{Still, NotEnd, IsQuiet}
use custom_shell.Pexpect.Streams.{before_text}
use custom_shell.Pexpect.Running.{
  Response, respond, find_response, respond_to, piece, on_end, after_match, run_loop, finish_run,
  run_child,
}
use custom_shell.Pexpect.Running.Matches.{
  Taken-Still, Still-left, Consumes, Found, expect-Found, Found-HasPiece,
}
use custom_shell.Pexpect.Running.Ended.{
  IsOutput, IsRun, pass-NotEnd, respond_to-Asked, from-run, end-IsOutput,
}

-- The events, and the responses to them, none of which takes text.
abbrev pub AreQuiet : Option (List Response) → Type 0
AreQuiet none = Unit
AreQuiet (some responses) =
    (index : ℕ) (r : Response) → get_elem? responses index ≡ some r → IsQuiet (respond r)

module _ (patterns : Patterns) (law : Consumes patterns) (responses : Option (List Response))
    (quiet : AreQuiet responses) (m : Machine) where
  find-Still :
      (rs : List Response) (o : Option Response) (index : ℕ) (s : Machine)
      → ((index : ℕ) (r : Response) → get_elem? rs index ≡ some r → IsQuiet (respond r))
      → get_elem? rs index ≡ o
      → Triple (Still s) (do r ← find_response o; respond r) (λ _. Still s) NotEnd
  unfolding find_response ◌>>=◌ pure raise
  find-Still rs none index s q e = record { run = λ n h. (λ x. cc x, λ x. cc x) }
  find-Still rs (some r) index s q e = record { run = λ n h. (q index r e s).run n h }

  respond_to-Still :
      (rs : Option (List Response)) (index : ℕ) (s : Machine)
      → AreQuiet rs
      → Triple (Still s) (respond_to rs index) (λ _. Still s) NotEnd
  unfolding respond_to
  respond_to-Still none index s q = Triple-raise type_error (λ n h. (λ x. cc x, λ x. cc x))
  respond_to-Still (some rs) index s q = find-Still rs (get_elem? rs index) index s q refl

  abbrev Looping : ℕ → List Bytes → Machine → Type 0
  Looping fuel results n = Taken m (flatten results) n × (bytes_left n < fuel)

  -- Behind a match: the response, and the rest of the loop.
  proceed-IsOutput :
      (fuel : ℕ) (results : List Bytes) (index : ℕ) (n : Machine)
      → Looping fuel results n
      → Triple
          (Looping fuel results)
          (run_loop responses patterns fuel results)
          (IsOutput responses m)
          NotEnd
      → Triple
          (λ k. k ≡ n)
          (try_else (respond_to responses index) (on_end results) (λ stops.
            if stops then pure (some results) else run_loop responses patterns fuel results))
          (IsOutput responses m)
          NotEnd
  proceed-IsOutput fuel results index n h again =
      Triple-try_else (respond_to responses index) (on_end results) _
        (Triple-to
          (Triple-from
            (λ k e. (
              (
                ap (λ (x : Machine). x.self.buffer) e,
                ap (λ (x : Machine). x.world.arrivals) e,
                ap (λ (x : Machine). x.world.reads) e,
              ),
              tt,
            ))
            (Triple-both (respond_to responses index) (respond_to-Still responses index n quiet)
              (respond_to-Asked responses index)))
          (λ stops k h. h) (λ e k h. h.0))
        (pass-NotEnd responses m results)
        (λ stops.
          Triple-if stops _ _
            (λ yes.
              Triple-pure (some results)
                (λ k s. inr (Taken-Still m n k (flatten results) s.0 h.0, s.1 yes)))
            (λ _.
              Triple-from
                (λ k s. (
                  Taken-Still m n k (flatten results) s.0 h.0,
                  omega (arith, h.1, Still-left n k s.0),
                ))
                again))
        (λ k x. x)

  after_match-run :
      (again : List Bytes → M (Option (List Bytes))) (results : List Bytes) (index : ℕ)
      (front middle : Bytes) (n : Machine)
      → n.self.before ≡ some front
      → n.self.after ≡ matched middle
      → after_match responses again results (some index) n
        ≡ try_else
            (respond_to responses index)
            (on_end (results ++ (front ++ middle) ∷ []))
            (λ stops.
              if stops
              then pure (some (results ++ (front ++ middle) ∷ []))
              else again (results ++ (front ++ middle) ∷ []))
            n
  unfolding after_match piece before_text self gets ◌>>=◌ pure
  after_match-run again results index front middle n e f = rw (f, e) refl

  matched-IsOutput :
      (fuel : ℕ) (results : List Bytes) (s : Machine)
      → Looping (suc fuel) results s
      → ((more : List Bytes)
          → Triple
              (Looping fuel more)
              (run_loop responses patterns fuel more)
              (IsOutput responses m)
              NotEnd)
      → (index : Option ℕ)
      → Triple
          (Found patterns law s index)
          (after_match responses (run_loop responses patterns fuel) results index)
          (IsOutput responses m)
          NotEnd
  matched-IsOutput fuel results s h again none = record { run = λ n x. elim x [ ] }
  matched-IsOutput fuel results s h again (some index) = record {
    run = λ n x.
        let p = Found-HasPiece patterns law s index n x in
        let taken : Taken m (flatten (results ++ (p.front ++ p.middle) ∷ [])) n =
          subst (λ t. Taken m t n) (sym (flatten-push results (p.front ++ p.middle)))
            (Taken-trans m s n (flatten results) (p.front ++ p.middle) h.0 p.taken) in
        from-run responses m
          (after_match-run (run_loop responses patterns fuel) results index p.front p.middle n
            p.before p.after)
          ((proceed-IsOutput fuel (results ++ (p.front ++ p.middle) ∷ []) index n
              (taken, omega (arith, h.1, p.fewer))
              (again (results ++ (p.front ++ p.middle) ∷ []))).run
            n refl);
  }

  run_loop-IsOutput :
      (fuel : ℕ) (results : List Bytes)
      → Triple
          (Looping fuel results)
          (run_loop responses patterns fuel results)
          (IsOutput responses m)
          NotEnd
  unfolding run_loop
  run_loop-IsOutput zero results = record { run = λ n h. absurd (omega (arith, h.1)) }
  run_loop-IsOutput (suc fuel) results = Triple-at (λ s h.
      Triple-try_else (expect patterns (some (negsuc 0)) (window_of none)) (on_end results)
        (after_match responses (run_loop responses patterns fuel) results)
        (expect-Found patterns law s) (end-IsOutput responses m patterns law results s h.0)
        (matched-IsOutput fuel results s h (run_loop-IsOutput fuel))
        (λ n x. (λ y. cc y, λ y. cc y)))

  finish_run-IsRun :
      (results : Option (List Bytes))
      → Triple
          (IsOutput responses m results)
          (finish_run responses patterns false results)
          (IsRun responses m)
          NotEnd
  unfolding finish_run
  finish_run-IsRun none = record { run = λ n h. elim h [ ] }
  finish_run-IsRun (some results) = Triple-pure _ (λ n h. (h, refl))

  begin-Taken : Taken m (flatten []) m
  unfolding flatten
  begin-Taken = Taken-nothing m

  -- Where no pattern matches an empty text or stands for EOF or TIMEOUT, and no response takes text
  -- from the child or raises EOF or TIMEOUT, `run` without `withexitstatus` makes at most as many rounds
  -- as there are bytes left to read, and one more. It returns all of the text, from the buffer on, up to
  -- the EOF or the TIMEOUT that ends it, the matches and what stands between them in their order; or, and
  -- only if one of its callbacks returns a true value from some state, the text up to the end of a
  -- match. It does not raise EOF or TIMEOUT; it does not return only where a call that it makes does not.
  pub run_child-IsRun :
      (fuel : ℕ)
      → bytes_left m < fuel
      → Post
          (IsRun responses m)
          NotEnd
          (run_child responses patterns fuel false m).0
          (run_child responses patterns fuel false m).1
  unfolding run_child
  run_child-IsRun fuel enough =
      (Triple-bind (run_loop responses patterns fuel []) _ (run_loop-IsOutput fuel [])
          finish_run-IsRun).run
        m (begin-Taken, enough)
