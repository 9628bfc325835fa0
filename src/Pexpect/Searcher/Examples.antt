-- ===== src/Pexpect/Searcher/Examples.antt =====
-- Searches on concrete buffers, and the theorems on searchers at concrete inputs.
use custom_shell.Prelude.{List, [], ◌∷◌, ◌++◌, Bytes, codes, none, some, ◌≡◌, refl}
use custom_shell.Pexpect.Searcher.{Entry, eof, pattern, new_searcher, search_string}
use custom_shell.Pexpect.Searcher.Told.{Told, search_string-Told}
use custom_shell.Pexpect.Searcher.Fresh.{search-fresh}
use custom_shell.Pexpect.Searcher.Entries.{IsIndexed, Holds, new_searcher-Keeps}

abbrev bar_foo : List (Entry Bytes)
bar_foo = pattern (codes "bar") ∷ eof ∷ pattern (codes "foo") ∷ pattern (codes "foobar") ∷ []

-- The example of the documentation of `expect`.
documented :
    search_string (new_searcher bar_foo) (codes "foobar") 6 none
    ≡ some (record { index = 2; start = 0; end = 3; match = codes "foo" })
unfolding search_string new_searcher
documented = refl

-- The window cuts the search: only the last four bytes are looked at.
windowed :
    search_string (new_searcher bar_foo) (codes "foobar") 6 (some 4)
    ≡ some (record { index = 0; start = 3; end = 6; match = codes "bar" })
unfolding search_string new_searcher
windowed = refl

-- A window of 0 is no window, since `-0` is the front of the buffer.
window_of_zero :
    search_string (new_searcher bar_foo) (codes "foobar") 6 (some 0)
    ≡ search_string (new_searcher bar_foo) (codes "foobar") 6 none
unfolding search_string new_searcher
window_of_zero = refl

-- The empty text is not found at the end of the buffer.
empty_at_end : search_string (new_searcher (pattern [] ∷ [])) [] 0 none ≡ none
unfolding search_string new_searcher
empty_at_end = refl

search_string-Told_example :
    Told
      (codes "foobar")
      6
      none
      (new_searcher bar_foo).searches
      (search_string (new_searcher bar_foo) (codes "foobar") 6 none)
search_string-Told_example = search_string-Told (new_searcher bar_foo) (codes "foobar") 6 none

no_bar : search_string (new_searcher bar_foo) (codes "ba") 2 none ≡ none
unfolding search_string new_searcher
no_bar = refl

search-fresh_example :
    search_string (new_searcher bar_foo) (codes "ba" ++ codes "r") 1 none
    ≡ search_string (new_searcher bar_foo) (codes "ba" ++ codes "r") 3 none
search-fresh_example = search-fresh (new_searcher bar_foo) (codes "ba") (codes "r") no_bar

new_searcher-Keeps_example :
    Holds 2 (pattern (codes "foo")) (new_searcher bar_foo)
    × IsIndexed bar_foo (new_searcher bar_foo)
new_searcher-Keeps_example = new_searcher-Keeps bar_foo 2 (pattern (codes "foo")) refl
