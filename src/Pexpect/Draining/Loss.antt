-- ===== src/Pexpect/Draining/Loss.antt =====
-- What happens to the text of the child while the thread drains the pty.
use custom_shell.Prelude.{
  true, false, List, [], ◌∷◌, ◌++◌, append_assoc, append-nil, Bytes, Option, none, some, ◌≡◌, refl,
  ap, subst, ◌∙◌,
}
use custom_shell.Pexpect.Draining.{
  done, Shared, thread_tests, thread_reads, thread_ends, loop_reads, Run, stay, more_steps,
  just_started,
}
use custom_shell.Pexpect.Draining.Accounted.{
  queue_text, pty_text, Run-IsAccounted, just_started-IsAccounted,
}

-- In every order of the steps, nothing is read twice or out of order: what the child has written is the
-- loop's text, followed by what is in the queue and by what is in the pty.
pub Run-text :
    (pty : List Bytes) (t : Shared)
    → Run (just_started pty) t
    → pty_text pty ≡ t.incoming ++ (queue_text t.queue ++ pty_text t.pty)
Run-text pty t r = (Run-IsAccounted (pty_text pty) r (just_started-IsAccounted pty)).whole

-- When the loop has met EOF, what is then in the queue is all that is missing from the loop's text.
pub Run-eof :
    (pty : List Bytes) (t : Shared)
    → Run (just_started pty) t
    → t.ended ≡ true
    → pty_text pty ≡ t.incoming ++ queue_text t.queue
Run-eof pty t r e =
    let h = Run-IsAccounted (pty_text pty) r (just_started-IsAccounted pty) in
    h.whole
    ∙ ap (λ x. t.incoming ++ (queue_text t.queue ++ pty_text x)) (h.over e)
    ∙ ap (λ x. t.incoming ++ x) (append-nil (queue_text t.queue))

-- The thread reads all of `pty` before the loop looks for the first time.
abbrev pub filled : List Bytes → List (Option Bytes) → Shared
filled pty queue = record (just_started pty) { queue = queue }

abbrev pub items : List Bytes → List (Option Bytes)
items [] = none ∷ []
items (c ∷ rest) = some c ∷ items rest

-- The loop has met EOF with an empty text.
abbrev pub lost : List (Option Bytes) → Shared
lost queue = record (just_started []) {
  queue = queue;
  keep_reading = false;
  drainpty = false;
  thread = done;
  ended = true;
}

pub drain-lost :
    (pty : List Bytes) (queue : List (Option Bytes))
    → Run (filled pty queue) (lost (queue ++ items pty))
drain-lost [] queue = more_steps (thread_tests _ refl) (
    more_steps (thread_reads _ refl) (
      more_steps (thread_tests _ refl)
        (more_steps (thread_ends _ refl) (more_steps (loop_reads _ refl) (stay _)))))
drain-lost (c ∷ rest) queue = more_steps (thread_tests _ refl) (
    more_steps (thread_reads _ refl) (
      subst (λ q. Run (filled rest (queue ++ some c ∷ [])) (lost q))
        (append_assoc queue (some c ∷ []) (items rest)) (drain-lost rest (queue ++ some c ∷ []))))

-- Whatever the child writes before it ends, there is an order of the steps in which the loop meets EOF
-- with an empty text, while all that the child has written stays in the queue: the thread reads it and
-- sets `drainpty` to false before the loop has emptied the queue.
pub eof-loses :
    (pty : List Bytes)
    → (t : Shared) × Run (just_started pty) t
      × (t.ended ≡ true)
      × (t.incoming ≡ [])
      × (queue_text t.queue ≡ pty_text pty)
eof-loses pty = (lost (items pty), drain-lost pty [], refl, refl, items-text pty)
  where
    items-text : (pty : List Bytes) → queue_text (items pty) ≡ pty_text pty
    items-text [] = refl
    items-text (c ∷ rest) = ap (λ x. c ++ x) (items-text rest)
