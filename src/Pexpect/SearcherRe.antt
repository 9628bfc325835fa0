-- ===== src/Pexpect/SearcherRe.antt =====
-- The class `searcher_re` of pexpect-dpty/pexpect.py: compiled regular expressions.
pub mod Leftmost
pub mod Told
pub mod Literals
mod Examples
use custom_shell.Prelude.{
  ℕ, ◌-◌, List, [], ◌∷◌, Bytes, Option, none, some, ltb, if◌then◌else◌, length,
}
use custom_shell.Python.Regex
use custom_shell.Python.Regex.{Regex, Match}
use custom_shell.Pexpect.Searcher.{Entry, Searcher, new_searcher, Found, Best, best_match}

-- `__init__`: the same sorting of the entries.
unfoldable pub new_searcher_re : List (Entry Regex) → Searcher Regex
unfolding new_searcher
new_searcher_re entries = new_searcher entries

-- `if match is None: continue`, then `if n < first_match`.
take_match : Option Match → ℕ → Best Match → Best Match
take_match none index b = b
take_match (some m) index b =
    if ltb m.start b.first_match
    then record {
      first_match = m.start;
      best = some (record { index = index; start = m.start; end = m.end; match = m });
    }
    else b

search_loop : List (ℕ × Regex) → Bytes → ℕ → Best Match → Best Match
unfolding take_match
search_loop [] buffer searchstart b = b
search_loop ((index, s) ∷ rest) buffer searchstart b =
    search_loop rest buffer searchstart (take_match (Regex.search s buffer searchstart) index b)

-- `max(0, len(buffer) - searchwindowsize)`; the subtraction of ℕ stops at 0.
unfoldable pub search_start : Bytes → Option ℕ → ℕ
search_start buffer none = 0
search_start buffer (some searchwindowsize) = length buffer - searchwindowsize

-- `searcher_re.search`; `freshlen` is not used. `none` is the result -1.
unfoldable pub search_re : Searcher Regex → Bytes → ℕ → Option ℕ → Option (Found Match)
unfolding search_loop search_start best_match Regex.search
search_re searcher buffer freshlen window =
    let absurd_match = length buffer in
    best_match absurd_match (
      search_loop searcher.searches buffer (search_start buffer window)
        (record { first_match = absurd_match; best = none }))
