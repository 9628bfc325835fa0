-- ===== src/Pexpect/Searcher/Told.antt =====
-- What a result of `searcher_string.search` tells, whichever it is.
use custom_shell.Prelude.{ℕ, List, Bytes, Option, none, some, length, ◌≡◌, refl, All}
use custom_shell.Pexpect.Searcher.{Searcher, Found, search_string}
use custom_shell.Pexpect.Searcher.Leftmost.{
  FreeBelow, IsLeftmost, search_string-IsLeftmost, search_string-none,
}

-- What the result of a search tells.
abbrev pub Told : Bytes → ℕ → Option ℕ → List (ℕ × Bytes) → Option (Found Bytes) → Type 0
Told buffer freshlen window searches none =
    All (FreeBelow buffer freshlen window (length buffer)) searches
Told buffer freshlen window searches (some f) = IsLeftmost buffer freshlen window searches f

told :
    (searcher : Searcher Bytes) (buffer : Bytes) (freshlen : ℕ) (window : Option ℕ)
    (o : Option (Found Bytes))
    → search_string searcher buffer freshlen window ≡ o
    → Told buffer freshlen window searcher.searches o
told searcher buffer freshlen window none h = search_string-none searcher buffer freshlen window h
told searcher buffer freshlen window (some f) h =
    search_string-IsLeftmost searcher buffer freshlen window f h

-- A successful search returns the place of a text of the list: it stands there, it ends inside the
-- buffer, no text of the list stands further to the left in its searched part, and the texts before
-- it in the list do not stand at that place either. A search that returns -1 has missed nothing: no
-- text of the list stands in its searched part, before the end of the buffer.
pub search_string-Told :
    (searcher : Searcher Bytes) (buffer : Bytes) (freshlen : ℕ) (window : Option ℕ)
    → Told buffer freshlen window searcher.searches (search_string searcher buffer freshlen window)
search_string-Told searcher buffer freshlen window =
    told searcher buffer freshlen window (search_string searcher buffer freshlen window) refl
