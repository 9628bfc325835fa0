-- ===== src/Pexpect/Draining/Follows.antt =====
-- `expect_loop` on what a run of the two threads shows.
use custom_shell.Prelude.{
  ℕ, zero, suc, ◌+◌, true, List, [], ◌∷◌, ◌++◌, append-nil, Bytes, Option, none, some, ◌≡◌, ◌≢◌,
  refl, sym, ap, subst, ◌∙◌, length, arith,
}
use custom_shell.Prelude.Int.{ℤ, pos}
use custom_shell.Pexpect.Machine.{Arrival, thread_done, World, Spawn}
use custom_shell.Pexpect.Expect.{Span, Searching, WindowArg, window_or_default, seek, expect_loop}
use custom_shell.Pexpect.Expect.Rounds.{
  before_end, EndsWith, seek-thread_done, seek-eof, MatchesWith, seek-match,
  expect_loop-first_rounds,
}
use custom_shell.Pexpect.Draining.{Shared, Run, just_started}
use custom_shell.Pexpect.Draining.Accounted.{
  queue_text, pty_text, IsAccounted, just_started-IsAccounted,
}
use custom_shell.Pexpect.Draining.Loss.{eof-loses}
use custom_shell.Pexpect.Draining.Reached.{Reaches, Misses, Run-Reaches}
use custom_shell.Pexpect.Draining.Shown.{arrivals_of, IsOver, just_started-IsOver}

-- Where the loop comes to EOF with `text`, and has found nothing on the way.
module _ (searcher : Searching) (window : Option ℕ) (end_time : ℤ) (o : Spawn) (w : World)
    (front text : Bytes)
    (misses : (p q : Bytes) (freshlen : ℕ)
      → text ≡ p ++ q
      → searcher.search (front ++ p) freshlen window ≡ none) where
  abbrev ToEof : Bytes → List Arrival → Type 0
  ToEof = Reaches searcher window end_time o w front text (EndsWith searcher (front ++ text))

  eof-done : (incoming : Bytes) → text ≡ incoming → ToEof incoming (thread_done ∷ [])
  eof-done incoming e zero freshlen b = absurd (omega arith)
  eof-done incoming e (suc fuel) freshlen b =
      let missed = misses incoming [] freshlen (e ∙ sym (append-nil incoming)) in
      rw (seek-thread_done searcher window end_time fuel freshlen (front ++ incoming) o w missed, e)
        (seek-eof searcher window end_time fuel freshlen (front ++ incoming) o w missed)

  Run-ToEof :
      (total : Bytes) {s t : Shared} (r : Run s t)
      → text ≡ t.incoming
      → t.ended ≡ true
      → IsAccounted total s
      → IsOver s
      → s.drainpty ≡ true
      → ToEof s.incoming (arrivals_of r)
  Run-ToEof total =
      Run-Reaches searcher window end_time o w front text (EndsWith searcher (front ++ text))
        (λ s. s.ended ≡ true) (λ s x e h d. absurd (cc (d, h.loop x))) eof-done
        (λ incoming q arrivals e k. k (λ freshlen. misses incoming q freshlen e)) total

-- Where the loop finds something in `text`, and nothing before it is whole.
module _ (searcher : Searching) (window : Option ℕ) (end_time : ℤ) (o : Spawn) (w : World)
    (front text : Bytes) (span : Span)
    (misses : (p q : Bytes) (freshlen : ℕ)
      → text ≡ p ++ q
      → q ≢ []
      → searcher.search (front ++ p) freshlen window ≡ none)
    (hits : (freshlen : ℕ) → searcher.search (front ++ text) freshlen window ≡ some span) where
  abbrev ToMatch : Bytes → List Arrival → Type 0
  ToMatch = Reaches searcher window end_time o w front text (MatchesWith span (front ++ text))

  match-now :
      (incoming : Bytes) (arrivals : List Arrival) → text ≡ incoming → ToMatch incoming arrivals
  match-now incoming arrivals e zero freshlen b = absurd (omega arith)
  match-now incoming arrivals e (suc fuel) freshlen b =
      subst
        (λ i. MatchesWith span (front ++ text) (
          seek searcher window end_time (suc fuel) none (front ++ i) freshlen
            (before_end true o w arrivals)))
        e
        (seek-match searcher window end_time fuel freshlen (front ++ text) span
          (before_end true o w arrivals) (hits freshlen))

  match-between :
      (incoming q : Bytes) (arrivals : List Arrival)
      → text ≡ incoming ++ q
      → (Misses searcher window end_time o w front text (MatchesWith span (front ++ text)) incoming
          → ToMatch incoming arrivals)
      → ToMatch incoming arrivals
  match-between incoming [] arrivals e k = match-now incoming arrivals (e ∙ append-nil incoming)
  match-between incoming (c ∷ q) arrivals e k =
      k (λ freshlen. misses incoming (c ∷ q) freshlen e (λ x. cc x))

  Run-ToMatch :
      (total : Bytes) {s t : Shared} (r : Run s t)
      → text ≡ t.incoming
      → Unit {0}
      → IsAccounted total s
      → IsOver s
      → s.drainpty ≡ true
      → ToMatch s.incoming (arrivals_of r)
  Run-ToMatch total =
      Run-Reaches searcher window end_time o w front text (MatchesWith span (front ++ text))
        (λ s. Unit {0}) (λ s x e h d. match-now s.incoming [] e)
        (λ incoming e. match-now incoming (thread_done ∷ []) e) match-between total

no_front : (p q : Bytes) → [] ≡ p ++ q → p ≡ []
no_front [] q e = refl
no_front (b ∷ p) q e = cc e

module _ (searcher : Searching) (arg : WindowArg) (o : Spawn) (w : World) where
  -- The child has exited with status 0, the first two calls of `select` find the descriptor ready, the next
  -- read fails with EIO, and the clock advances evenly: so it is where the drain thread and the loop have
  -- taken all that the child wrote. In this world, where the two threads come to EOF, the call of
  -- `expect_loop` without a timeout that sees what they show, on an object that is not closed and whatever
  -- the thread has recorded of the end of the child, and that finds nothing on the way, whatever part of the
  -- text is fresh, ends with EOF as well: `before` is the old buffer and the text that the loop has in the
  -- end, and `buffer` is empty.
  pub Run-expect_loop :
      (pty : List Bytes) (t : Shared) (r : Run (just_started pty) t)
      → t.ended ≡ true
      → ((p q : Bytes) (freshlen : ℕ)
          → t.incoming ≡ p ++ q
          → searcher.search (o.buffer ++ p) freshlen (window_or_default arg o.searchwindowsize)
            ≡ none)
      → EndsWith searcher
          (o.buffer ++ t.incoming)
          (expect_loop searcher none arg (before_end true o w (arrivals_of r)))
  Run-expect_loop pty t r x misses =
      let window = window_or_default arg o.searchwindowsize in
      let started = record o { thread_started = true } in
      let fuel : ℕ = suc (2 + length (arrivals_of r)) in
      rw (expect_loop-first_rounds searcher arg o w (arrivals_of r)) (
        subst
          (λ b. EndsWith searcher (o.buffer ++ t.incoming) (
            seek searcher window (pos 0) fuel none b (length o.buffer)
              (before_end true started w (arrivals_of r))))
          (append-nil o.buffer)
          (Run-ToEof searcher window (pos 0) started w o.buffer t.incoming misses (pty_text pty) r
            refl x (just_started-IsAccounted pty) just_started-IsOver refl fuel (length o.buffer)
            (omega arith)))

  -- In the same world, of a child that has exited and whose descriptor shows the end of the file, and for a
  -- call of `expect_loop` without a timeout on an object that is not closed: where the two threads come to a
  -- text in which the searcher finds something, always the same whatever part of the text it takes to be
  -- fresh (as `searcher_re` does, which does not use it), and where it finds nothing while a part of
  -- the text is missing, the call that sees what the threads show ends with that match in the old buffer
  -- and the text: however the output came in pieces, and whether the thread has ended, the result,
  -- `before`, `after` and `buffer` are the same.
  pub Run-finds :
      (pty : List Bytes) (t : Shared) (r : Run (just_started pty) t) (span : Span)
      → ((p q : Bytes) (freshlen : ℕ)
          → t.incoming ≡ p ++ q
          → q ≢ []
          → searcher.search (o.buffer ++ p) freshlen (window_or_default arg o.searchwindowsize)
            ≡ none)
      → ((freshlen : ℕ)
          → searcher.search
              (o.buffer ++ t.incoming)
              freshlen
              (window_or_default arg o.searchwindowsize)
            ≡ some span)
      → MatchesWith span
          (o.buffer ++ t.incoming)
          (expect_loop searcher none arg (before_end true o w (arrivals_of r)))
  Run-finds pty t r span misses hits =
      let window = window_or_default arg o.searchwindowsize in
      let started = record o { thread_started = true } in
      let fuel : ℕ = suc (2 + length (arrivals_of r)) in
      rw (expect_loop-first_rounds searcher arg o w (arrivals_of r)) (
        subst
          (λ b. MatchesWith span (o.buffer ++ t.incoming) (
            seek searcher window (pos 0) fuel none b (length o.buffer)
              (before_end true started w (arrivals_of r))))
          (append-nil o.buffer)
          (Run-ToMatch searcher window (pos 0) started w o.buffer t.incoming span misses hits
            (pty_text pty) r refl tt (just_started-IsAccounted pty) just_started-IsOver refl fuel
            (length o.buffer) (omega arith)))

  -- Whatever the child writes before it ends, there is an order of the steps of the two threads in which
  -- all of it stays in the queue, and in which `expect_loop` ends with EOF on the old buffer alone, if
  -- it finds nothing there.
  pub expect_loop-loses :
      (pty : List Bytes)
      → ((freshlen : ℕ)
          → searcher.search o.buffer freshlen (window_or_default arg o.searchwindowsize) ≡ none)
      → (t : Shared) × (r : Run (just_started pty) t) × (queue_text t.queue ≡ pty_text pty)
        × EndsWith searcher o.buffer
            (expect_loop searcher none arg (before_end true o w (arrivals_of r)))
  expect_loop-loses pty missed =
      let (t, r, x, e, whole) = eof-loses pty in
      (
        t,
        r,
        whole,
        subst
            (λ b.
              EndsWith searcher b
                (expect_loop searcher none arg (before_end true o w (arrivals_of r))))
            (ap (λ i. o.buffer ++ i) e ∙ append-nil o.buffer)
            (Run-expect_loop pty t r x (λ p q freshlen k.
              subst
                (λ b. searcher.search b freshlen (window_or_default arg o.searchwindowsize) ≡ none)
                (sym (ap (λ i. o.buffer ++ i) (no_front p q (sym e ∙ k)) ∙ append-nil o.buffer))
                (missed freshlen))),
      )
