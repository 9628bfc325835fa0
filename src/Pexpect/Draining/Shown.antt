-- ===== src/Pexpect/Draining/Shown.antt =====
-- What a run of the two threads shows to `expect_loop`: the arrivals in the queue, in order.
use custom_shell.Prelude.{
  Bool, true, false, List, [], ◌∷◌, ◌++◌, append_assoc, append-nil, Bytes, Option, none, some, ◌≡◌,
  refl, sym, ap, ◌∙◌, ◌≢◌,
}
use custom_shell.Pexpect.Machine.{Arrival, item, end_mark, thread_done}
use custom_shell.Pexpect.Draining.{
  testing, done, Shared, after_test, after_read, after_loop, after_more, Step, thread_tests,
  thread_reads, thread_times_out, thread_ends, loop_reads, Run, stay, more_steps, just_started,
}

-- By the value of `drainpty`.
abbrev pub seen : Bool → List (Option Bytes) → List Arrival
seen true (some c ∷ rest) = item c ∷ []
seen true (none ∷ rest) = end_mark ∷ []
seen true [] = []
seen false queue = []

abbrev pub shown : {s t : Shared} → Step s t → List Arrival
shown (loop_reads s e) = seen s.drainpty s.queue
shown (thread_ends s e) = thread_done ∷ []
shown (thread_tests s e) = []
shown (thread_reads s e) = []
shown (thread_times_out s e) = []

abbrev pub arrivals_of : {s t : Shared} → Run s t → List Arrival
arrivals_of (stay s) = []
arrivals_of (more_steps x r) = shown x ++ arrivals_of r

-- What a step of the thread leaves as it was.
pub record Frames (s t : Shared) : Type 0 where
  pub drainpty : t.drainpty ≡ s.drainpty
  pub ended : t.ended ≡ s.ended
  pub incoming : t.incoming ≡ s.incoming

pub test-Frames : (b : Bool) (s : Shared) → Frames s (after_test b s)
test-Frames true s = record { drainpty = refl; ended = refl; incoming = refl }
test-Frames false s = record { drainpty = refl; ended = refl; incoming = refl }

pub read-Frames : (pty : List Bytes) (s : Shared) → Frames s (after_read pty s)
read-Frames [] s = record { drainpty = refl; ended = refl; incoming = refl }
read-Frames (c ∷ rest) s = record { drainpty = refl; ended = refl; incoming = refl }

pub more-drainpty :
    (b : Bool) (queue : List (Option Bytes)) (pty : List Bytes) (s : Shared)
    → (after_more b queue pty s).drainpty ≡ s.drainpty
more-drainpty true [] pty s = refl
more-drainpty true (some c ∷ rest) pty s = refl
more-drainpty true (none ∷ rest) pty s = refl
more-drainpty false queue [] s = refl
more-drainpty false queue (c ∷ rest) s = refl

-- `drainpty` is false only behind the loop of the thread, and the loop meets EOF only then.
pub record IsOver (s : Shared) : Type 0 where
  pub thread : s.drainpty ≡ false → s.thread ≡ done
  pub loop : s.ended ≡ true → s.drainpty ≡ false

pub just_started-IsOver : {pty : List Bytes} → IsOver (just_started pty)
just_started-IsOver = record { thread = λ d. cc; loop = λ e. cc }

-- A step of the thread that leaves `drainpty` true.
still-IsOver : {s t : Shared} → s.drainpty ≢ false → Frames s t → IsOver s → IsOver t
still-IsOver n f h = record {
  thread = λ d. absurd (n (sym f.drainpty ∙ d));
  loop = λ e. f.drainpty ∙ h.loop (sym f.ended ∙ e);
}

more-IsOver :
    (b : Bool) (queue : List (Option Bytes)) (pty : List Bytes) (s : Shared)
    → s.drainpty ≡ b
    → IsOver s
    → IsOver (after_more b queue pty s)
more-IsOver true [] pty s d h = h
more-IsOver true (some c ∷ rest) pty s d h = record { thread = h.thread; loop = h.loop }
more-IsOver true (none ∷ rest) pty s d h = record { thread = h.thread; loop = h.loop }
more-IsOver false queue [] s d h = record { thread = h.thread; loop = λ e. d }
more-IsOver false queue (c ∷ rest) s d h = record { thread = h.thread; loop = h.loop }

pub Step-IsOver : {s t : Shared} → Step s t → IsOver s → IsOver t
Step-IsOver (thread_tests s e) h =
    still-IsOver (λ d. cc (e, h.thread d)) (test-Frames s.keep_reading s) h
Step-IsOver (thread_reads s e) h = still-IsOver (λ d. cc (e, h.thread d)) (read-Frames s.pty s) h
Step-IsOver (thread_times_out s e) h = record {
  thread = λ d. absurd (cc (e, h.thread d));
  loop = h.loop;
}
Step-IsOver (thread_ends s e) h = record { thread = λ d. refl; loop = λ x. refl }
Step-IsOver (loop_reads s e) h = more-IsOver s.drainpty s.queue s.pty s refl h

-- Behind the end of the thread, with nothing left to read.
pub record IsQuiet (s : Shared) : Type 0 where
  pub drainpty : s.drainpty ≡ false
  pub thread : s.thread ≡ done
  pub pty : s.pty ≡ []

more-IsQuiet :
    (b : Bool) (queue : List (Option Bytes)) (pty : List Bytes) (s : Shared)
    → b ≡ false
    → pty ≡ []
    → IsQuiet s
    → IsQuiet (after_more b queue pty s)
      × ((after_more b queue pty s).incoming ≡ s.incoming)
      × (seen b queue ≡ [])
more-IsQuiet true queue pty s d p h = absurd (cc d)
more-IsQuiet false queue [] s d p h =
    (record { drainpty = h.drainpty; thread = h.thread; pty = h.pty }, refl, refl)
more-IsQuiet false queue (c ∷ rest) s d p h = absurd (cc p)

-- Then nothing is shown, and the text of the loop stays as it is.
pub Run-IsQuiet :
    {s t : Shared} (r : Run s t) → IsQuiet s → (arrivals_of r ≡ []) × (t.incoming ≡ s.incoming)
Run-IsQuiet (stay s) h = (refl, refl)
Run-IsQuiet (more_steps (thread_tests s e) r) h = absurd (cc (e, h.thread))
Run-IsQuiet (more_steps (thread_reads s e) r) h = absurd (cc (e, h.thread))
Run-IsQuiet (more_steps (thread_times_out s e) r) h = absurd (cc (e, h.thread))
Run-IsQuiet (more_steps (thread_ends s e) r) h = absurd (cc (e, h.thread))
Run-IsQuiet (more_steps (loop_reads s e) r) h =
    let q = more-IsQuiet s.drainpty s.queue s.pty s h.drainpty h.pty h in
    let k = Run-IsQuiet r q.0 in (ap (λ a. a ++ arrivals_of r) q.2 ∙ k.0, k.1 ∙ q.1)

-- The text of the loop only grows.
abbrev pub Grows : Shared → Shared → Type 0
Grows s t = (p : Bytes) × (t.incoming ≡ s.incoming ++ p)

same-Grows : (s t : Shared) → t.incoming ≡ s.incoming → Grows s t
same-Grows s t e = ([], e ∙ sym (append-nil s.incoming))

more-Grows :
    (b : Bool) (queue : List (Option Bytes)) (pty : List Bytes) (s : Shared)
    → Grows s (after_more b queue pty s)
more-Grows true [] pty s = same-Grows s s refl
more-Grows true (some c ∷ rest) pty s = (c, refl)
more-Grows true (none ∷ rest) pty s = same-Grows s (record s { queue = rest }) refl
more-Grows false queue [] s = same-Grows s (record s { ended = true }) refl
more-Grows false queue (c ∷ rest) s = (c, refl)

Step-Grows : {s t : Shared} → Step s t → Grows s t
Step-Grows (thread_tests s e) =
    same-Grows s (after_test s.keep_reading s) (test-Frames s.keep_reading s).incoming
Step-Grows (thread_reads s e) = same-Grows s (after_read s.pty s) (read-Frames s.pty s).incoming
Step-Grows (thread_times_out s e) = same-Grows s (record s { thread = testing }) refl
Step-Grows (thread_ends s e) = same-Grows s (after_loop s) refl
Step-Grows (loop_reads s e) = more-Grows s.drainpty s.queue s.pty s

pub Run-Grows : {s t : Shared} → Run s t → Grows s t
Run-Grows (stay s) = same-Grows s s refl
Run-Grows {s} (more_steps x r) =
    let (p, e) = Step-Grows x in
    let (q, k) = Run-Grows r in (p ++ q, k ∙ ap (λ u. u ++ q) e ∙ append_assoc s.incoming p q)
