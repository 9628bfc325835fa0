-- ===== src/Pexpect/Searcher/Fresh.antt =====
-- `searcher_string.search` looks only at the fresh end of the buffer. The loop of `expect` searches
-- a buffer, fails, appends what it reads and searches again: nothing is missed.
use mathlib.Core.Bool.{false≢true}
use custom_shell.Prelude.{
  ℕ, zero, suc, ◌+◌, ◌-◌, ◌≤◌, ◌<◌, false, List, [], ◌∷◌, ◌++◌, Bytes, Option, none, length, ◌≡◌,
  refl, arith, All, sym, ◌∙◌, length-append, some, ap,
}
use custom_shell.Python.Text.{find_back, back_start, find, occurs, starts_with}
use custom_shell.Python.Text.Places.{find_skip}
use custom_shell.Pexpect.Searcher.{
  Searcher, Best, best_match, take_better, search_back, search_loop, search_string,
}
use custom_shell.Pexpect.Searcher.Source.{place}
use custom_shell.Pexpect.Searcher.Leftmost.{FreeBelow, search_string-none}

starts_with-append :
    (sub s t : Bytes) → length sub ≤ length s → starts_with sub (s ++ t) ≡ starts_with sub s
unfolding starts_with
starts_with-append [] s t h = refl
starts_with-append (p ∷ ps) [] t h = absurd (omega arith)
starts_with-append (p ∷ ps) (c ∷ s) t h = ground (arith, starts_with-append ps s t)

-- Appending to a text changes nothing of what stands inside it.
occurs-append :
    (s t sub : Bytes) (i : ℕ) → i + length sub ≤ length s → occurs (s ++ t) sub i ≡ occurs s sub i
occurs-append s t sub zero h = starts_with-append sub s t (omega arith)
occurs-append [] t sub (suc i) h = absurd (omega arith)
occurs-append (c ∷ s) t sub (suc i) h = occurs-append s t sub i (omega arith)

search_loop-ap :
    (l : List (ℕ × Bytes)) (buffer : Bytes) (m n : ℕ) (window : Option ℕ) (b : Best Bytes)
    → All (λ e. place buffer m window e.1 ≡ place buffer n window e.1) l
    → search_loop l buffer m window b ≡ search_loop l buffer n window b
unfolding search_loop
search_loop-ap [] buffer m n window b h = refl
search_loop-ap ((i, s) ∷ l) buffer m n window b h =
    rw (h.0, search_loop-ap l buffer m n window (take_better (place buffer n window s) i s b) h.1)

module _ (old fresh : Bytes) where
  abbrev buffer : Bytes
  buffer = old ++ fresh

  start_whole : (s : Bytes) → back_start buffer (length buffer + length s) ≡ 0
  unfolding back_start
  start_whole s = ground arith

  start_fresh :
      (x : ℕ) (s : Bytes)
      → back_start buffer (length fresh + length (x ∷ s)) ≡ length old - length (x ∷ s)
  unfolding back_start
  start_fresh x s = ground (arith, length-append old fresh)

  find-fresh :
      (x : ℕ) (s : Bytes)
      → ((n : ℕ) → n < length old → occurs old (x ∷ s) n ≡ false)
      → find buffer (x ∷ s) 0 ≡ find buffer (x ∷ s) (length old - length (x ∷ s))
  find-fresh x s free =
      find_skip (length old - length (x ∷ s)) buffer (x ∷ s) 0 (length old - length (x ∷ s))
        (omega arith) (omega (arith, length-append old fresh))
        (λ p a b. occurs-append old fresh (x ∷ s) p (omega arith) ∙ free p (omega arith))

  place-fresh :
      (s : Bytes)
      → 0 < length old
      → ((n : ℕ) → n < length old → occurs old s n ≡ false)
      → place buffer (length fresh) none s ≡ place buffer (length buffer) none s
  unfolding find_back find search_back
  place-fresh [] some_old free = absurd (false≢true (sym (free 0 some_old)))
  place-fresh (x ∷ s) some_old free =
      rw (start_whole (x ∷ s), start_fresh x s) (sym (find-fresh x s free))

  free_of_below :
      (s : Bytes)
      → ((n : ℕ)
          → back_start old (length old + length s) ≤ n
          → n < length old
          → occurs old s n ≡ false)
      → (n : ℕ) → n < length old
      → occurs old s n ≡ false
  unfolding back_start
  free_of_below s h n lt = h n (ground arith) lt

  places-fresh :
      (l : List (ℕ × Bytes))
      → 0 < length old
      → All (FreeBelow old (length old) none (length old)) l
      → All (λ e. place buffer (length fresh) none e.1 ≡ place buffer (length buffer) none e.1) l
  unfolding search_back
  places-fresh [] some_old h = tt
  places-fresh ((i, s) ∷ l) some_old h =
      (place-fresh s some_old (free_of_below s h.0), places-fresh l some_old h.1)

-- After a search of all of `old` has failed, a search of `old` and `fresh` that is told the length
-- of `fresh` gives what a search of the whole buffer gives.
pub search-fresh :
    (searcher : Searcher Bytes) (old fresh : Bytes)
    → search_string searcher old (length old) none ≡ none
    → search_string searcher (old ++ fresh) (length fresh) none
      ≡ search_string searcher (old ++ fresh) (length (old ++ fresh)) none
search-fresh searcher [] fresh h = refl
search-fresh searcher (c ∷ o) fresh h =
    unfold search_string in
    rw (
      search_loop-ap searcher.searches (c ∷ o ++ fresh) (length fresh) (length (c ∷ o ++ fresh))
        none (record { first_match = length (c ∷ o ++ fresh); best = none })
        (places-fresh (c ∷ o) fresh searcher.searches (omega arith)
          (search_string-none searcher (c ∷ o) (length (c ∷ o)) none h)))

search_loop-window :
    (l : List (ℕ × Bytes)) (text : Bytes) (m n w : ℕ) (b : Best Bytes)
    → search_loop l text m (some w) b ≡ search_loop l text n (some w) b
unfolding search_loop search_back
search_loop-window [] text m n w b = refl
search_loop-window ((i, s) ∷ l) text m n w b =
    search_loop-window l text m n w (take_better (place text n (some w) s) i s b)

-- A window of a given size does not ask how much of the text is fresh.
pub search_string-window :
    (searcher : Searcher Bytes) (text : Bytes) (m n w : ℕ)
    → search_string searcher text m (some w) ≡ search_string searcher text n (some w)
unfolding search_string
search_string-window searcher text m n w = ap (best_match (length text)) (
    search_loop-window searcher.searches text m n w
      (record { first_match = length text; best = none }))
