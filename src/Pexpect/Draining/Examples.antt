-- ===== src/Pexpect/Draining/Examples.antt =====
-- Runs of the two threads at concrete texts.
use custom_shell.Prelude.{
  ℕ, ==_refl, Option, none, some, length, true, List, [], ◌∷◌, ◌++◌, Bytes, codes, ◌≡◌, ◌≢◌, refl,
  subst,
}
use custom_shell.Pexpect.Draining.{
  Shared, Run, stay, more_steps, thread_tests, thread_reads, thread_ends, loop_reads, just_started,
}
use custom_shell.Pexpect.Draining.Drains.{IsDrained, Run-Drains}
use custom_shell.Pexpect.Draining.Accounted.{queue_text, pty_text}
use custom_shell.Pexpect.Draining.Loss.{Run-text, items, lost}
use custom_shell.Pexpect.Searcher.{eof, pattern, new_searcher}
use custom_shell.Pexpect.SearcherRe.{new_searcher_re, search_re}
use custom_shell.Python.Regex
use custom_shell.Python.Regex.{literal}
use custom_shell.Pexpect.Patterns.{searching_string, searching_re}
use custom_shell.Pexpect.Machine.{new_spawn}
use custom_shell.Pexpect.Lifecycle.Examples.{machine}
use custom_shell.Pexpect.Expect.{Span, Searching, default_window, expect_loop}
use custom_shell.Pexpect.Expect.Rounds.{before_end, EndsWith, MatchesWith}
use custom_shell.Pexpect.Draining.Shown.{arrivals_of}
use custom_shell.Pexpect.Draining.Follows.{Run-expect_loop, Run-finds, expect_loop-loses}

abbrev output : List Bytes
output = codes "$ " ∷ codes "done" ∷ []

-- The thread has read the prompt, and the loop has taken it.
abbrev prompted : Shared
prompted = record (just_started (codes "done" ∷ [])) { incoming = codes "$ " }

prompt : Run (just_started output) prompted
prompt =
    more_steps (thread_tests _ refl)
      (more_steps (thread_reads _ refl) (more_steps (loop_reads _ refl) (stay _)))

Run-text_example :
    pty_text output ≡ prompted.incoming ++ (queue_text prompted.queue ++ pty_text prompted.pty)
Run-text_example = Run-text output prompted prompt

-- A searcher that waits for EOF only.
abbrev for_eof : Searching
for_eof = searching_string (new_searcher (eof ∷ []))

nothing_else :
    (buffer : Bytes) (freshlen : ℕ) (window : Option ℕ)
    → for_eof.search buffer freshlen window ≡ none
unfolding searching_string new_searcher
nothing_else buffer freshlen window = rw (==_refl (length buffer)) refl

-- The loop takes the prompt, the thread ends, and the loop meets EOF.
abbrev all_but_last : Shared
all_but_last = record (lost (items (codes "done" ∷ []))) { incoming = codes "$ " }

to_the_end : Run (just_started output) all_but_last
to_the_end = more_steps (thread_tests _ refl) (
    more_steps (thread_reads _ refl) (
      more_steps (loop_reads _ refl) (
        more_steps (thread_tests _ refl) (
          more_steps (thread_reads _ refl) (
            more_steps (thread_tests _ refl) (
              more_steps (thread_reads _ refl) (
                more_steps (thread_tests _ refl)
                  (more_steps (thread_ends _ refl) (more_steps (loop_reads _ refl) (stay _))))))))))

Run-expect_loop_example : EndsWith for_eof (machine.self.buffer ++ codes "$ ") (
    expect_loop for_eof none default_window
      (before_end true machine.self machine.world (arrivals_of to_the_end)))
Run-expect_loop_example =
    Run-expect_loop for_eof default_window machine.self machine.world output all_but_last to_the_end
      refl
      (λ p q freshlen e.
        nothing_else (machine.self.buffer ++ p) freshlen machine.self.searchwindowsize)

-- The expression `\$ `.
abbrev for_prompt : Searching
for_prompt = searching_re (new_searcher_re (pattern (literal (codes "$ ")) ∷ []))

abbrev prompt_span : Span
prompt_span = record { index = 0; start = 0; end = 2; groups = [] }

before_prompt :
    (p q : Bytes) (freshlen : ℕ)
    → codes "$ " ≡ p ++ q
    → q ≢ []
    → for_prompt.search p freshlen none ≡ none
unfolding searching_re new_searcher_re search_re Regex.search
before_prompt [] q freshlen e h = refl
before_prompt (b ∷ []) q freshlen e h =
    let same : b'$' ≡ b = cc e in
    subst (λ c. for_prompt.search (c ∷ []) freshlen none ≡ none) same refl
before_prompt (b ∷ c ∷ []) q freshlen e h = absurd (h (cc e))
before_prompt (b ∷ c ∷ d ∷ p) q freshlen e h = cc e

at_prompt : (freshlen : ℕ) → for_prompt.search (codes "$ ") freshlen none ≡ some prompt_span
unfolding searching_re new_searcher_re search_re Regex.search
at_prompt freshlen = refl

Run-finds_example : MatchesWith prompt_span (machine.self.buffer ++ codes "$ ") (
    expect_loop for_prompt none default_window
      (before_end true machine.self machine.world (arrivals_of prompt)))
unfolding new_spawn
Run-finds_example =
    Run-finds for_prompt default_window machine.self machine.world output prompted prompt
      prompt_span before_prompt at_prompt

expect_loop-loses_example :
    (t : Shared) × (r : Run (just_started output) t) × (queue_text t.queue ≡ pty_text output)
    × EndsWith for_eof machine.self.buffer (
        expect_loop for_eof none default_window
          (before_end true machine.self machine.world (arrivals_of r)))
expect_loop-loses_example =
    expect_loop-loses for_eof default_window machine.self machine.world output
      (λ freshlen. nothing_else machine.self.buffer freshlen machine.self.searchwindowsize)

Run-Drains_example : (t : Shared) × Run prompted t × IsDrained prompted t
Run-Drains_example = Run-Drains output prompted prompt
