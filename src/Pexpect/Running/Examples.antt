-- ===== src/Pexpect/Running/Examples.antt =====
-- A run that answers a question of the child, and the theorem on it.
use mathlib.Core.List.{flatten}
use custom_shell.Prelude.{
  ℕ, zero, suc, subst, ◌<◌, [], ◌∷◌, Bytes, codes, none, some, false, ◌≡◌, refl, sym, ◌∙◌, ap, inl,
  inr, arith,
}
use custom_shell.Python.Exec.{ok}
use custom_shell.Python.Exec.Triple.{Post}
use custom_shell.Python.Regex
use custom_shell.Python.Regex.{Regex, literal}
use custom_shell.Python.Regex.Literal.{search-literal}
use custom_shell.Pexpect.Machine.{item, thread_done, ready, Read, Machine, new_spawn}
use custom_shell.Pexpect.Lifecycle.Examples.{machine}
use custom_shell.Pexpect.Searcher.{pattern, Found}
use custom_shell.Pexpect.SearcherRe.{new_searcher_re, search_re, search_start}
use custom_shell.Pexpect.SearcherRe.Leftmost.{IsChosen, search_re-IsLeftmost}
use custom_shell.Pexpect.Expect.{Span}
use custom_shell.Pexpect.Expect.Taken.{bytes_left}
use custom_shell.Pexpect.Patterns.{
  Patterns, several, plain, searching_re, compile_pattern_list, to_span, match_groups,
}
use custom_shell.Pexpect.Sending.Quiet.{NotEnd, IsQuiet}
use custom_shell.Pexpect.Streams.Sought.{to_span-some}
use custom_shell.Pexpect.Streams.Lines.{to_literal-some}
use custom_shell.Pexpect.Running.{string, unusable, respond, run_child}
use custom_shell.Pexpect.Running.Matches.{string-IsQuiet, Consumes}
use custom_shell.Pexpect.Running.Ended.{IsRun}
use custom_shell.Pexpect.Running.Result.{AreQuiet, run_child-IsRun}

abbrev question : Bytes
question = codes "password: "

abbrev events : Patterns
events = several (plain (literal question) ∷ [])

literal-nonempty :
    (buffer : Bytes) (g : Found Regex.Match)
    → IsChosen buffer 0 g ((0, literal question) ∷ [])
    → g.start < g.end
literal-nonempty buffer g (inl (i, e, a, b)) = omega (
  arith,
  (to_literal-some question _ g.match (sym (search-literal question buffer 0) ∙ e)).1,
  a,
  b,
)
literal-nonempty buffer g (inr (n, a)) = elim a [ ]

search-nonempty :
    (incoming : Bytes) (freshlen : ℕ) (f : Span)
    → to_span match_groups
        (search_re (new_searcher_re (pattern (literal question) ∷ [])) incoming freshlen none)
      ≡ some f
    → f.start < f.end
unfolding new_searcher_re search_start
search-nonempty incoming freshlen f h =
    let (g, e, i, a, b, same) =
      to_span-some match_groups
        (search_re (new_searcher_re (pattern (literal question) ∷ [])) incoming freshlen none) f
        h in
    omega (
      arith,
      literal-nonempty incoming g (search_re-IsLeftmost _ incoming freshlen none g e).first,
      a,
      b,
    )

consuming : Consumes events
unfolding compile_pattern_list searching_re new_searcher_re
consuming = record {
  entries = pattern (literal question) ∷ [];
  compiles = λ m. refl;
  no_eof = refl;
  no_timeout = refl;
  consumes = λ incoming freshlen f h. search-nonempty incoming freshlen f h;
}

quiet : AreQuiet (some (string (codes "secret\n") ∷ []))
quiet zero r e =
    subst (λ x. IsQuiet (respond x)) (ap (λ o. elim o [ none ↦ unusable | some x ↦ x ]) e)
      (string-IsQuiet (codes "secret\n"))
quiet (suc n) r e = cc

-- The child asks, and then ends: a read fails with EIO.
abbrev asking : Machine
asking = record machine {
  world = record machine.world {
    arrivals =
        item (codes "Enter pass") ∷ item (codes "word: ") ∷ item (codes "ok") ∷ thread_done ∷ [];
    selects = ready ∷ [];
    reads = Read.failed 5 ∷ [];
  };
}

answers :
    ((run_child (some (string (codes "secret\n") ∷ [])) events 30 false asking).0
      ≡ ok (some (codes "Enter password: ok", none)))
    × ((run_child (some (string (codes "secret\n") ∷ [])) events 30 false asking).1.world.written
        ≡ codes "secret\n" ∷ [])
unfolding run_child new_spawn flatten
answers = (refl, refl)

few_bytes : bytes_left asking < 30
unfolding new_spawn
few_bytes = omega arith

run_child-IsRun_example :
    Post
      (IsRun (some (string (codes "secret\n") ∷ [])) asking)
      NotEnd
      (run_child (some (string (codes "secret\n") ∷ [])) events 30 false asking).0
      (run_child (some (string (codes "secret\n") ∷ [])) events 30 false asking).1
run_child-IsRun_example =
    run_child-IsRun events consuming (some (string (codes "secret\n") ∷ [])) quiet asking 30
      few_bytes
