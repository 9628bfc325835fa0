-- ===== src/Pexpect/SearcherRe/Examples.antt =====
-- Searches for regular expressions in concrete buffers, and the theorems at concrete inputs.
use custom_shell.Prelude.{[], ◌∷◌, codes, none, some, ◌==◌, ◌≡◌, refl}
use custom_shell.Python.Regex
use custom_shell.Python.Regex.{Regex, Match, byte, seq, some_of, literal}
use custom_shell.Pexpect.Searcher.{Searcher, Found, eof, pattern}
use custom_shell.Pexpect.SearcherRe.{new_searcher_re, search_start, search_re}
use custom_shell.Pexpect.SearcherRe.Told.{Told, search_re-Told}

-- `\$ ` and `a+b`.
abbrev prompt : Searcher Regex
prompt = new_searcher_re (
    pattern (literal (codes "$ "))
    ∷ eof
    ∷ pattern (seq (some_of (byte (λ c. c == b'a'))) (literal (codes "b")))
    ∷ [])

abbrev found : Found Match
found = record { index = 2; start = 1; end = 4; match = record { start = 1; end = 4; groups = [] } }

finds_second : search_re prompt (codes "caab$ ") 6 none ≡ some found
unfolding search_re new_searcher_re Regex.search
finds_second = refl

finds_nothing : search_re prompt (codes "caab$ ") 6 (some 1) ≡ none
unfolding search_re new_searcher_re Regex.search
finds_nothing = refl

search_re-Told_example :
    Told
      (codes "caab$ ")
      (search_start (codes "caab$ ") none)
      prompt.searches
      (search_re prompt (codes "caab$ ") 6 none)
search_re-Told_example = search_re-Told prompt (codes "caab$ ") 6 none
