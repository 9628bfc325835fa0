-- ===== src/Pexpect/SearcherRe/Told.antt =====
-- What a result of `searcher_re.search` tells, whichever it is.
use custom_shell.Prelude.{ℕ, List, Bytes, Option, none, some, length, ◌≡◌, refl, All}
use custom_shell.Python.Regex.{Regex, Match}
use custom_shell.Pexpect.Searcher.{Searcher, Found}
use custom_shell.Pexpect.SearcherRe.{search_start, search_re}
use custom_shell.Pexpect.SearcherRe.Leftmost.{
  NotBehind, IsLeftmost, search_re-IsLeftmost, search_re-none,
}

-- What the result of a search tells.
abbrev pub Told : Bytes → ℕ → List (ℕ × Regex) → Option (Found Match) → Type 0
Told buffer start searches none = All (NotBehind buffer start (length buffer)) searches
Told buffer start searches (some f) = IsLeftmost buffer start searches f

told :
    (searcher : Searcher Regex) (buffer : Bytes) (freshlen : ℕ) (window : Option ℕ)
    (o : Option (Found Match))
    → search_re searcher buffer freshlen window ≡ o
    → Told buffer (search_start buffer window) searcher.searches o
told searcher buffer freshlen window none h = search_re-none searcher buffer freshlen window h
told searcher buffer freshlen window (some f) h =
    search_re-IsLeftmost searcher buffer freshlen window f h

-- A successful search returns the match of an entry whose match starts furthest to the left, the
-- first such entry of the list, and the match lies in the searched part of the buffer. A search that
-- returns -1 means that no entry has a match that starts before the end of the buffer.
pub search_re-Told :
    (searcher : Searcher Regex) (buffer : Bytes) (freshlen : ℕ) (window : Option ℕ)
    → Told buffer
        (search_start buffer window)
        searcher.searches
        (search_re searcher buffer freshlen window)
search_re-Told searcher buffer freshlen window =
    told searcher buffer freshlen window (search_re searcher buffer freshlen window) refl
