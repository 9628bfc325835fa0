-- ===== src/Pexpect/Draining/Drains.antt =====
-- The drain thread reaches its end by itself.
use custom_shell.Prelude.{
  Bool, true, false, List, [], ◌∷◌, ◌++◌, append_assoc, append-nil, Bytes, Option, none, some, ◌≡◌,
  refl, sym, ap, subst, ◌∙◌, Bool-cases, inl, inr,
}
use custom_shell.Pexpect.Draining.{
  Thread, testing, reading, leaving, done, Shared, after_test, after_read, after_loop, after_more,
  Step, thread_tests, thread_reads, thread_times_out, thread_ends, loop_reads, Run, stay,
  more_steps, just_started,
}
use custom_shell.Pexpect.Draining.Accounted.{
  queue_text, pty_text, queue_text-append, IsAccounted, Run-IsAccounted, just_started-IsAccounted,
}

-- The thread has ended; what was in the pty is in the queue, behind what was there before, and the
-- loop has done nothing.
pub record IsDrained (s t : Shared) : Type 0 where
  pub thread : t.thread ≡ done
  pub pty : t.pty ≡ []
  pub queue : queue_text t.queue ≡ queue_text s.queue ++ pty_text s.pty
  pub incoming : t.incoming ≡ s.incoming
  pub drainpty : t.drainpty ≡ false

-- A run that ends with the end of the thread.
abbrev Drains : Shared → Type 0
Drains s = (t : Shared) × Run s t × IsDrained s t

-- At the test of the loop, after EOF.
stopped-Drains : (s : Shared) → s.thread ≡ testing → s.keep_reading ≡ false → s.pty ≡ [] → Drains s
stopped-Drains s at stop dry = (
  after_loop (after_test false s),
  more_steps (subst (λ b. Step s (after_test b s)) stop (thread_tests s at))
      (more_steps (thread_ends _ refl) (stay _)),
  record {
    thread = refl;
    pty = dry;
    queue =
        sym (append-nil (queue_text s.queue))
        ∙ ap (λ p. queue_text s.queue ++ pty_text p) (sym dry);
    incoming = refl;
    drainpty = refl;
  },
)

read-Step :
    (pty : List Bytes) (s : Shared) → s.pty ≡ pty → s.thread ≡ reading → Step s (after_read pty s)
read-Step pty s e at = subst (λ p. Step s (after_read p s)) e (thread_reads s at)

-- A read moves text from the pty to the end of the queue.
read-IsDrained :
    (pty : List Bytes) (s t : Shared) → s.pty ≡ pty → IsDrained (after_read pty s) t → IsDrained s t
read-IsDrained [] s t e h = record {
  thread = h.thread;
  pty = h.pty;
  queue =
      h.queue
      ∙ ap (λ q. q ++ pty_text s.pty)
          (queue_text-append s.queue (none ∷ []) ∙ append-nil (queue_text s.queue));
  incoming = h.incoming;
  drainpty = h.drainpty;
}
read-IsDrained (c ∷ rest) s t e h = record {
  thread = h.thread;
  pty = h.pty;
  queue =
      h.queue
      ∙ ap (λ q. q ++ pty_text rest)
          (queue_text-append s.queue (some c ∷ [])
            ∙ ap (λ d. queue_text s.queue ++ d) (append-nil c))
      ∙ append_assoc (queue_text s.queue) c (pty_text rest)
      ∙ ap (λ p. queue_text s.queue ++ pty_text p) (sym e);
  incoming = h.incoming;
  drainpty = h.drainpty;
}

-- In the call of `read_nonblocking`, and at the test of the loop before it.
reading-Drains :
    (pty : List Bytes) (s : Shared)
    → s.pty ≡ pty
    → s.thread ≡ reading
    → s.keep_reading ≡ true
    → Drains s
reading-Drains [] s e at keep =
    let (t, r, d) = stopped-Drains (after_read [] s) refl refl e in
    (t, more_steps (read-Step [] s e at) r, read-IsDrained [] s t e d)
reading-Drains (c ∷ rest) s e at keep =
    let (t, r, d) =
      reading-Drains rest (record (after_read (c ∷ rest) s) { thread = reading }) refl refl keep in
    (
      t,
      more_steps (read-Step (c ∷ rest) s e at) (
          more_steps
            (subst (λ b. Step (after_read (c ∷ rest) s) (after_test b (after_read (c ∷ rest) s)))
              keep (thread_tests _ refl))
            r),
      read-IsDrained (c ∷ rest) s t e (record {
        thread = d.thread;
        pty = d.pty;
        queue = d.queue;
        incoming = d.incoming;
        drainpty = d.drainpty;
      }),
    )

-- Behind its loop, the thread has set `drainpty` to false.
abbrev HasLeft : Shared → Type 0
HasLeft s = s.thread ≡ done → s.drainpty ≡ false

test-HasLeft : (b : Bool) (s : Shared) → HasLeft (after_test b s)
test-HasLeft true s = λ e. cc e
test-HasLeft false s = λ e. cc e

read-HasLeft : (pty : List Bytes) (s : Shared) → HasLeft (after_read pty s)
read-HasLeft [] s = λ e. cc e
read-HasLeft (c ∷ rest) s = λ e. cc e

more-HasLeft :
    (b : Bool) (queue : List (Option Bytes)) (pty : List Bytes) (s : Shared)
    → HasLeft s
    → HasLeft (after_more b queue pty s)
more-HasLeft true [] pty s h = h
more-HasLeft true (some c ∷ rest) pty s h = h
more-HasLeft true (none ∷ rest) pty s h = h
more-HasLeft false queue [] s h = h
more-HasLeft false queue (c ∷ rest) s h = h

Step-HasLeft : {s t : Shared} → Step s t → HasLeft s → HasLeft t
Step-HasLeft (thread_tests s e) h = test-HasLeft s.keep_reading s
Step-HasLeft (thread_reads s e) h = read-HasLeft s.pty s
Step-HasLeft (thread_times_out s e) h = λ x. cc x
Step-HasLeft (thread_ends s e) h = λ x. refl
Step-HasLeft (loop_reads s e) h = more-HasLeft s.drainpty s.queue s.pty s h

Run-HasLeft : {s t : Shared} → Run s t → HasLeft s → HasLeft t
Run-HasLeft (stay s) h = h
Run-HasLeft (more_steps x r) h = Run-HasLeft r (Step-HasLeft x h)

testing-Drains : (total : Bytes) (s : Shared) → IsAccounted total s → s.thread ≡ testing → Drains s
testing-Drains total s h at = elim (Bool-cases s.keep_reading) [
  | inl keep ↦
      let (t, r, d) = reading-Drains s.pty (record s { thread = reading }) refl refl keep in
      (
        t,
        more_steps (subst (λ b. Step s (after_test b s)) keep (thread_tests s at)) r,
        record {
          thread = d.thread;
          pty = d.pty;
          queue = d.queue;
          incoming = d.incoming;
          drainpty = d.drainpty;
        },
      )
  | inr stop ↦ stopped-Drains s at stop (h.after_eof stop)
]

dry-IsDrained :
    (s t : Shared)
    → s.pty ≡ []
    → t.thread ≡ done
    → t.pty ≡ s.pty
    → t.queue ≡ s.queue
    → t.incoming ≡ s.incoming
    → t.drainpty ≡ false
    → IsDrained s t
dry-IsDrained s t dry at pty queue incoming off = record {
  thread = at;
  pty = pty ∙ dry;
  queue =
      ap queue_text queue
      ∙ sym (append-nil (queue_text s.queue))
      ∙ ap (λ p. queue_text s.queue ++ pty_text p) (sym dry);
  incoming = incoming;
  drainpty = off;
}

place-Drains :
    (total : Bytes) (s : Shared) (at : Thread)
    → s.thread ≡ at
    → IsAccounted total s
    → HasLeft s
    → Drains s
place-Drains total s testing e h k = testing-Drains total s h e
place-Drains total s reading e h k = elim (Bool-cases s.keep_reading) [
  | inl keep ↦ reading-Drains s.pty s refl e keep
  | inr stop ↦
      let dry = h.after_eof stop in
      let (t, r, d) = stopped-Drains (after_read [] s) refl refl dry in
      (t, more_steps (read-Step [] s dry e) r, read-IsDrained [] s t dry d)
]
place-Drains total s leaving e h k = (
  after_loop s,
  more_steps (thread_ends s e) (stay _),
  dry-IsDrained s (after_loop s) (h.after_eof (h.behind_loop e)) refl refl refl refl refl,
)
place-Drains total s done e h k =
    (s, stay s, dry-IsDrained s s (h.after_eof (h.not_draining (k e))) e refl refl refl (k e))

-- Wherever the two threads stand, there is a way on to the end of the drain thread on which the text
-- of the loop stays as it is: then all that the child has written and nobody has read stands at the
-- end of the queue, the pty is empty, and `drainpty` is false.
pub Run-Drains :
    (pty : List Bytes) (s : Shared)
    → Run (just_started pty) s
    → (t : Shared) × Run s t × IsDrained s t
Run-Drains pty s r =
    place-Drains (pty_text pty) s s.thread refl
      (Run-IsAccounted (pty_text pty) r (just_started-IsAccounted pty)) (Run-HasLeft r (λ e. cc e))
