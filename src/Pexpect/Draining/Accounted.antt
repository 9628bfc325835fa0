-- ===== src/Pexpect/Draining/Accounted.antt =====
-- Where the text of the child stands, in every order of the steps.
use custom_shell.Prelude.{
  Bool, true, false, List, [], ◌∷◌, ◌++◌, append_assoc, append-nil, Bytes, Option, none, some, ◌≡◌,
  refl, sym, ap, ◌∙◌,
}
use custom_shell.Pexpect.Draining.{
  leaving, Shared, after_test, after_read, after_more, Step, thread_tests, thread_reads,
  thread_times_out, thread_ends, loop_reads, Run, stay, more_steps, just_started,
}

-- The text in the queue.
abbrev pub queue_text : List (Option Bytes) → Bytes
queue_text [] = []
queue_text (none ∷ q) = queue_text q
queue_text (some c ∷ q) = c ++ queue_text q

-- The text in the pty.
abbrev pub pty_text : List Bytes → Bytes
pty_text [] = []
pty_text (c ∷ rest) = c ++ pty_text rest

pub queue_text-append :
    (p q : List (Option Bytes)) → queue_text (p ++ q) ≡ queue_text p ++ queue_text q
queue_text-append [] q = refl
queue_text-append (none ∷ p) q = queue_text-append p q
queue_text-append (some c ∷ p) q =
    rw (queue_text-append p q, append_assoc c (queue_text p) (queue_text q)) refl

-- What the child has written is in the loop's text, then in the queue, then in the pty; and the pty is
-- exhausted once the thread has seen EOF.
pub record IsAccounted (total : Bytes) (s : Shared) : Type 0 where
  pub whole : total ≡ s.incoming ++ (queue_text s.queue ++ pty_text s.pty)
  pub after_eof : s.keep_reading ≡ false → s.pty ≡ []
  pub not_draining : s.drainpty ≡ false → s.keep_reading ≡ false
  pub behind_loop : s.thread ≡ leaving → s.keep_reading ≡ false
  pub over : s.ended ≡ true → s.pty ≡ []

module _ (total : Bytes) where
  test-IsAccounted :
      (b : Bool) (s : Shared)
      → s.keep_reading ≡ b
      → IsAccounted total s
      → IsAccounted total (after_test b s)
  test-IsAccounted true s e h = record {
    whole = h.whole;
    after_eof = h.after_eof;
    not_draining = h.not_draining;
    behind_loop = λ x. cc;
    over = h.over;
  }
  test-IsAccounted false s e h = record {
    whole = h.whole;
    after_eof = h.after_eof;
    not_draining = h.not_draining;
    behind_loop = λ x. e;
    over = h.over;
  }

  put-whole :
      (s : Shared) (item : Option Bytes) (rest : List Bytes)
      → queue_text s.queue ++ pty_text s.pty ≡ queue_text (s.queue ++ item ∷ []) ++ pty_text rest
      → IsAccounted total s
      → total ≡ s.incoming ++ (queue_text (s.queue ++ item ∷ []) ++ pty_text rest)
  put-whole s item rest e h = h.whole ∙ ap (λ x. s.incoming ++ x) e

  read-IsAccounted :
      (pty : List Bytes) (s : Shared)
      → s.pty ≡ pty
      → IsAccounted total s
      → IsAccounted total (after_read pty s)
  read-IsAccounted [] s e h = record {
    whole =
        put-whole s none s.pty
          (rw (queue_text-append s.queue (none ∷ []), append-nil (queue_text s.queue)) refl) h;
    after_eof = λ x. e;
    not_draining = λ x. refl;
    behind_loop = λ x. refl;
    over = h.over;
  }
  read-IsAccounted (c ∷ rest) s e h = record {
    whole = put-whole s (some c) rest moved h;
    after_eof = λ x. cc (e, h.after_eof x);
    not_draining = h.not_draining;
    behind_loop = λ x. cc;
    over = λ x. cc (e, h.over x);
  }
    where
      moved :
          queue_text s.queue ++ pty_text s.pty
          ≡ queue_text (s.queue ++ some c ∷ []) ++ pty_text rest
      moved =
          rw
            (
              e,
              queue_text-append s.queue (some c ∷ []),
              append-nil c,
              append_assoc (queue_text s.queue) c (pty_text rest),
            )
            refl

  more-IsAccounted :
      (b : Bool) (queue : List (Option Bytes)) (pty : List Bytes) (s : Shared)
      → s.drainpty ≡ b
      → s.queue ≡ queue
      → s.pty ≡ pty
      → IsAccounted total s
      → IsAccounted total (after_more b queue pty s)
  more-IsAccounted true [] pty s d q e h = h
  more-IsAccounted true (some c ∷ rest) pty s d q e h = record {
    whole = h.whole ∙ taken;
    after_eof = h.after_eof;
    not_draining = h.not_draining;
    behind_loop = h.behind_loop;
    over = h.over;
  }
    where
      taken :
          s.incoming ++ (queue_text s.queue ++ pty_text s.pty)
          ≡ (s.incoming ++ c) ++ (queue_text rest ++ pty_text s.pty)
      taken =
          rw (q, append_assoc c (queue_text rest) (pty_text s.pty))
            (sym (append_assoc s.incoming c (queue_text rest ++ pty_text s.pty)))
  more-IsAccounted true (none ∷ rest) pty s d q e h = record {
    whole = h.whole ∙ ap (λ x. s.incoming ++ (queue_text x ++ pty_text s.pty)) q;
    after_eof = h.after_eof;
    not_draining = h.not_draining;
    behind_loop = h.behind_loop;
    over = h.over;
  }
  more-IsAccounted false queue [] s d q e h = record {
    whole = h.whole;
    after_eof = h.after_eof;
    not_draining = h.not_draining;
    behind_loop = h.behind_loop;
    over = λ x. e;
  }
  more-IsAccounted false queue (c ∷ rest) s d q e h =
      absurd (never (sym e ∙ h.after_eof (h.not_draining d)))
    where
      never : (c ∷ rest) ≡ [] → ⊥
      never x = cc

  pub Step-IsAccounted : {s t : Shared} → Step s t → IsAccounted total s → IsAccounted total t
  Step-IsAccounted (thread_tests s e) h = test-IsAccounted s.keep_reading s refl h
  Step-IsAccounted (thread_reads s e) h = read-IsAccounted s.pty s refl h
  Step-IsAccounted (thread_times_out s e) h = record {
    whole = h.whole;
    after_eof = h.after_eof;
    not_draining = h.not_draining;
    behind_loop = λ x. cc;
    over = h.over;
  }
  Step-IsAccounted (thread_ends s e) h = record {
    whole = h.whole;
    after_eof = h.after_eof;
    not_draining = λ x. h.behind_loop e;
    behind_loop = λ x. h.behind_loop e;
    over = h.over;
  }
  Step-IsAccounted (loop_reads s e) h = more-IsAccounted s.drainpty s.queue s.pty s refl refl refl h

  pub Run-IsAccounted : {s t : Shared} → Run s t → IsAccounted total s → IsAccounted total t
  Run-IsAccounted (stay s) h = h
  Run-IsAccounted (more_steps x r) h = Run-IsAccounted r (Step-IsAccounted x h)

pub just_started-IsAccounted : (pty : List Bytes) → IsAccounted (pty_text pty) (just_started pty)
just_started-IsAccounted pty = record {
  whole = refl;
  after_eof = λ x. cc;
  not_draining = λ x. cc;
  behind_loop = λ x. cc;
  over = λ x. cc;
}
