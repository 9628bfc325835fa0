-- ===== src/Pexpect/Patterns/Examples.antt =====
-- Searches of the loop in concrete worlds, and the theorems at concrete inputs.
use custom_shell.Prelude.{[], ◌∷◌, map, codes, none, some, ◌≡◌, refl, inr}
use custom_shell.Prelude.Int.{negsuc}
use custom_shell.Python.Exec.{ok, raised, type_error}
use custom_shell.Python.Exec.Triple.{Post}
use custom_shell.Python.Regex.{literal}
use custom_shell.Pexpect.Machine.{item, late, ready, chunk, matched, Machine, new_spawn}
use custom_shell.Pexpect.Lifecycle.Examples.{machine}
use custom_shell.Pexpect.Searcher.{eof, pattern}
use custom_shell.Pexpect.Expect.{default_window, window_of}
use custom_shell.Pexpect.Patterns.Literals.{as_pattern, expect-literals}
use custom_shell.Pexpect.Patterns.{
  Patterns, several, plain, eof_type, other, compile_pattern_list, expect, expect_exact,
}
use custom_shell.Pexpect.Reading.{read_nonblocking}
use custom_shell.Pexpect.Reading.Selected.{Steady}
use custom_shell.Pexpect.Reading.Account.{Delivered, read_nonblocking-Delivers}

-- The prompt arrives in two pieces through the thread.
abbrev prompting : Machine
prompting = record machine {
  world = record machine.world {
    arrivals = item (codes "hi <") ∷ late ∷ item (codes "a>$ ls") ∷ [];
  };
}

sees_prompt :
    ((expect_exact
        (inr (pattern (codes "<a>$ ") ∷ []))
        (some (negsuc 0))
        default_window
        prompting).0
      ≡ ok (some 0))
    × ((expect_exact
          (inr (pattern (codes "<a>$ ") ∷ []))
          (some (negsuc 0))
          default_window
          prompting).1.self.before
        ≡ some (codes "hi "))
    × ((expect_exact
          (inr (pattern (codes "<a>$ ") ∷ []))
          (some (negsuc 0))
          default_window
          prompting).1.self.after
        ≡ matched (codes "<a>$ "))
    × ((expect_exact
          (inr (pattern (codes "<a>$ ") ∷ []))
          (some (negsuc 0))
          default_window
          prompting).1.self.buffer
        ≡ codes "ls")
unfolding expect_exact new_spawn
sees_prompt = (refl, refl, refl, refl)

-- The child has written a line, and then nothing.
abbrev writing : Machine
writing = record machine {
  world = record machine.world { selects = ready ∷ []; reads = chunk (codes "jobs\n") ∷ [] };
}

read_nonblocking-Delivers_example :
    Post
      (λ c n. Delivered writing.world c n.world)
      (λ _ n. Steady writing.world n.world)
      (read_nonblocking 3 (some (negsuc 0)) writing).0
      (read_nonblocking 3 (some (negsuc 0)) writing).1
read_nonblocking-Delivers_example = read_nonblocking-Delivers 3 (some (negsuc 0)) writing

reads_three : (read_nonblocking 3 (some (negsuc 0)) writing).0 ≡ ok (codes "job")
unfolding read_nonblocking new_spawn
reads_three = refl

abbrev wrong : Patterns
wrong = several (plain (literal (codes "a")) ∷ eof_type ∷ other ∷ [])

refused : compile_pattern_list wrong machine ≡ (raised type_error, machine)
unfolding compile_pattern_list
refused = refl

expect-literals_example :
    expect
      (several (map as_pattern (eof ∷ pattern (codes "<a>$ ") ∷ [])))
      (some (negsuc 0))
      (window_of none)
      prompting
    ≡ expect_exact
        (inr (eof ∷ pattern (codes "<a>$ ") ∷ []))
        (some (negsuc 0))
        (window_of none)
        prompting
unfolding new_spawn
expect-literals_example =
    expect-literals (eof ∷ pattern (codes "<a>$ ") ∷ []) (some (negsuc 0)) none prompting
      (λ e. cc e) refl
