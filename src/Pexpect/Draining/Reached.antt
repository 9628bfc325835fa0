-- ===== src/Pexpect/Draining/Reached.antt =====
-- The loop of `expect_loop` goes through what a run of the two threads shows.
use custom_shell.Prelude.{
  ℕ, zero, suc, ◌<◌, true, List, [], ◌∷◌, ◌++◌, append_assoc, Bytes, Option, none, some, ◌≡◌, refl,
  sym, ◌∙◌, subst, length, arith,
}
use custom_shell.Prelude.Int.{ℤ}
use custom_shell.Python.Exec.{Outcome}
use custom_shell.Pexpect.Machine.{Arrival, thread_done, World, Spawn, Machine}
use custom_shell.Pexpect.Expect.{Searching, seek}
use custom_shell.Pexpect.Expect.Rounds.{before_end, seek-item, seek-end_mark}
use custom_shell.Pexpect.Draining.{
  Shared, after_more, thread_tests, thread_reads, thread_times_out, thread_ends, loop_reads, Run,
  stay, more_steps,
}
use custom_shell.Pexpect.Draining.Accounted.{IsAccounted, Step-IsAccounted}
use custom_shell.Pexpect.Draining.Shown.{
  seen, arrivals_of, test-Frames, read-Frames, more-drainpty, IsOver, Step-IsOver, Run-IsQuiet,
  Run-Grows,
}

-- `text` is what the loop has in the end, and `R` is what its result is to satisfy.
module _ (searcher : Searching) (window : Option ℕ) (end_time : ℤ) (o : Spawn) (w : World)
    (front text : Bytes) (R : Outcome (Option ℕ) × Machine → Type 0) where
  -- From a text and arrivals, with enough fuel, the loop gets to such a result.
  abbrev pub Reaches : Bytes → List Arrival → Type 0
  Reaches incoming arrivals =
      (fuel freshlen : ℕ)
      → length arrivals < fuel
      → R (
          seek searcher window end_time fuel none (front ++ incoming) freshlen
            (before_end true o w arrivals))

  -- No search of the text finds anything.
  abbrev pub Misses : Bytes → Type 0
  Misses incoming = (freshlen : ℕ) → searcher.search (front ++ incoming) freshlen window ≡ none

  more-Reaches :
      (queue : List (Option Bytes)) (pty : List Bytes) (s : Shared) (arrivals : List Arrival)
      → Misses s.incoming
      → Reaches (after_more true queue pty s).incoming arrivals
      → Reaches s.incoming (seen true queue ++ arrivals)
  more-Reaches [] pty s arrivals missed h fuel freshlen b = h fuel freshlen b
  more-Reaches (some c ∷ rest) pty s arrivals missed h zero freshlen b = absurd (omega arith)
  more-Reaches (some c ∷ rest) pty s arrivals missed h (suc fuel) freshlen b =
      rw
        (
          seek-item searcher window end_time fuel freshlen (front ++ s.incoming) o w
              (missed freshlen) c arrivals,
          append_assoc front s.incoming c,
        )
        (h fuel (length c) (omega arith))
  more-Reaches (none ∷ rest) pty s arrivals missed h zero freshlen b = absurd (omega arith)
  more-Reaches (none ∷ rest) pty s arrivals missed h (suc fuel) freshlen b =
      rw
        (seek-end_mark searcher window end_time fuel freshlen (front ++ s.incoming) o w
          (missed freshlen) arrivals)
        (h fuel freshlen (omega arith))

  -- What the loop does where nothing comes any more, where the thread has just ended, and where more of
  -- `text` may come; `Last` holds of the last state of the run.
  module _ (Last : Shared → Type 0)
      (at_rest : (s : Shared)
        → Last s
        → text ≡ s.incoming
        → IsOver s
        → s.drainpty ≡ true
        → Reaches s.incoming [])
      (at_done : (incoming : Bytes) → text ≡ incoming → Reaches incoming (thread_done ∷ []))
      (in_between : (incoming q : Bytes) (arrivals : List Arrival)
        → text ≡ incoming ++ q
        → (Misses incoming → Reaches incoming arrivals)
        → Reaches incoming arrivals)
      (total : Bytes) where
    pub Run-Reaches :
        {s t : Shared} (r : Run s t)
        → text ≡ t.incoming
        → Last t
        → IsAccounted total s
        → IsOver s
        → s.drainpty ≡ true
        → Reaches s.incoming (arrivals_of r)
    Run-Reaches (stay s) e x a h d = at_rest s x e h d
    Run-Reaches (more_steps (thread_tests s p) r) e x a h d =
        let f = test-Frames s.keep_reading s in
        let z = thread_tests s p in
        subst (λ i. Reaches i (arrivals_of r)) f.incoming
          (Run-Reaches r e x (Step-IsAccounted total z a) (Step-IsOver z h) (f.drainpty ∙ d))
    Run-Reaches (more_steps (thread_reads s p) r) e x a h d =
        let f = read-Frames s.pty s in
        let z = thread_reads s p in
        subst (λ i. Reaches i (arrivals_of r)) f.incoming
          (Run-Reaches r e x (Step-IsAccounted total z a) (Step-IsOver z h) (f.drainpty ∙ d))
    Run-Reaches (more_steps (thread_times_out s p) r) e x a h d =
        let z = thread_times_out s p in
        Run-Reaches r e x (Step-IsAccounted total z a) (Step-IsOver z h) d
    Run-Reaches (more_steps (thread_ends s p) r) e x a h d =
        let k =
          Run-IsQuiet r
            (record { drainpty = refl; thread = refl; pty = a.after_eof (a.behind_loop p) }) in
        subst (λ l. Reaches s.incoming (thread_done ∷ l)) (sym k.0) (at_done s.incoming (e ∙ k.1))
    Run-Reaches (more_steps (loop_reads s p) r) e x a h d =
        let z = loop_reads s p in
        let (q, k) = Run-Grows (more_steps z r) in
        subst (λ b. Reaches s.incoming (seen b s.queue ++ arrivals_of r)) (sym d)
          (in_between s.incoming q (seen true s.queue ++ arrivals_of r) (e ∙ k) (λ missed.
            more-Reaches s.queue s.pty s (arrivals_of r) missed (
              subst (λ b. Reaches (after_more b s.queue s.pty s).incoming (arrivals_of r)) d
                (Run-Reaches r e x (Step-IsAccounted total z a) (Step-IsOver z h)
                  (more-drainpty s.drainpty s.queue s.pty s ∙ d)))))
