-- ===== src/Pexpect/SearcherRe/Literals.antt =====
-- A list of texts, searched by `searcher_string` and as expressions by `searcher_re`.
use custom_shell.Prelude.{
  ℕ, suc, List, [], ◌∷◌, ◌++◌, map, Bytes, Option, none, some, ltb, ◌==◌, length, ◌≡◌, refl, sym,
  ◌∙◌, ap, Bool-cases, inl, inr,
}
use custom_shell.Python.Regex
use custom_shell.Python.Regex.{Regex, Match, literal}
use custom_shell.Python.Regex.Literal.{to_literal, search-literal}
use custom_shell.Python.Text.{find, find_back, back_start}
use custom_shell.Pexpect.Searcher
use custom_shell.Pexpect.Searcher.{
  Entry, eof, timeout, pattern, Searcher, Found, Best, take_better, best_match, search_back,
  search_string, sort_entry, sort_entries, new_searcher, no_patterns,
}
use custom_shell.Pexpect.SearcherRe.{
  take_match, search_loop, search_start, search_re, new_searcher_re,
}

-- The place of a text, as a match.
abbrev pub as_match : Found Bytes → Found Match
as_match f = record {
  index = f.index;
  start = f.start;
  end = f.end;
  match = record { start = f.start; end = f.end; groups = [] };
}

abbrev pub map_found : Option (Found Bytes) → Option (Found Match)
map_found none = none
map_found (some f) = some (as_match f)

abbrev as_best : Best Bytes → Best Match
as_best b = record { first_match = b.first_match; best = map_found b.best }

-- The texts as expressions.
abbrev pub as_regex : Entry Bytes → Entry Regex
as_regex eof = eof
as_regex timeout = timeout
as_regex (pattern s) = pattern (literal s)

abbrev literals : List (ℕ × Bytes) → List (ℕ × Regex)
literals [] = []
literals ((i, s) ∷ l) = (i, literal s) ∷ literals l

abbrev pub as_searcher_re : Searcher Bytes → Searcher Regex
as_searcher_re s = record {
  eof_index = s.eof_index;
  timeout_index = s.timeout_index;
  searches = literals s.searches;
}

take-literal :
    (o : Option ℕ) (i : ℕ) (s : Bytes) (b : Best Bytes)
    → take_match (to_literal s o) i (as_best b) ≡ as_best (take_better o i s b)
unfolding take_match take_better
take-literal none i s b = refl
take-literal (some n) i s b = elim (Bool-cases (ltb n b.first_match)) [
  | inl lt ↦ rw lt refl
  | inr ge ↦ rw ge refl
]

best_match-literal :
    (n : ℕ) (b : Best Bytes) → best_match n (as_best b) ≡ map_found (best_match n b)
unfolding best_match
best_match-literal n b = elim (Bool-cases (b.first_match == n)) [
  | inl miss ↦ rw miss refl
  | inr hit ↦ rw hit refl
]

module _ (buffer : Bytes) (freshlen : ℕ) (window : Option ℕ)
    (same : (s : Bytes)
      → back_start buffer (search_back freshlen window s) ≡ search_start buffer window) where
  place-literal :
      (s : Bytes)
      → Regex.search (literal s) buffer (search_start buffer window)
        ≡ to_literal s (find_back buffer s (search_back freshlen window s))
  unfolding find_back
  place-literal s =
      search-literal s buffer (search_start buffer window)
      ∙ ap (λ k. to_literal s (find buffer s k)) (sym (same s))

  loop-literal :
      (l : List (ℕ × Bytes)) (b : Best Bytes)
      → search_loop (literals l) buffer (search_start buffer window) (as_best b)
        ≡ as_best (Searcher.search_loop l buffer freshlen window b)
  unfolding search_loop Searcher.search_loop
  loop-literal [] b = refl
  loop-literal ((i, s) ∷ l) b =
      ap
        (λ o.
          search_loop (literals l) buffer (search_start buffer window) (take_match o i (as_best b)))
        (place-literal s)
      ∙ ap (λ c. search_loop (literals l) buffer (search_start buffer window) c)
          (take-literal (find_back buffer s (search_back freshlen window s)) i s b)
      ∙ loop-literal l (take_better (find_back buffer s (search_back freshlen window s)) i s b)

  -- Where the two searches begin at one place, they find the same.
  pub search-literals :
      (searcher : Searcher Bytes)
      → search_re (as_searcher_re searcher) buffer freshlen window
        ≡ map_found (search_string searcher buffer freshlen window)
  unfolding search_re search_string
  search-literals searcher =
      ap (best_match (length buffer))
        (loop-literal searcher.searches (record { first_match = length buffer; best = none }))
      ∙ best_match-literal (length buffer) (
          Searcher.search_loop searcher.searches buffer freshlen window
            (record { first_match = length buffer; best = none }))

literals-push :
    (l : List (ℕ × Bytes)) (n : ℕ) (t : Bytes)
    → literals (l ++ (n, t) ∷ []) ≡ literals l ++ (n, literal t) ∷ []
literals-push [] n t = refl
literals-push ((i, s) ∷ l) n t = ap (λ r. (i, literal s) ∷ r) (literals-push l n t)

-- The constructors sort alike.
sort_entries-literals :
    (n : ℕ) (entries : List (Entry Bytes)) (s : Searcher Bytes)
    → sort_entries n (map as_regex entries) (as_searcher_re s)
      ≡ as_searcher_re (sort_entries n entries s)
unfolding sort_entries
sort_entries-literals n [] s = refl
sort_entries-literals n (eof ∷ entries) s =
    sort_entries-literals (suc n) entries (sort_entry n eof s)
sort_entries-literals n (timeout ∷ entries) s =
    sort_entries-literals (suc n) entries (sort_entry n timeout s)
sort_entries-literals n (pattern t ∷ entries) s =
    ap
      (λ l.
        sort_entries (suc n) (map as_regex entries)
          (record { eof_index = s.eof_index; timeout_index = s.timeout_index; searches = l }))
      (sym (literals-push s.searches n t))
    ∙ sort_entries-literals (suc n) entries (sort_entry n (pattern t) s)

pub new_searcher-literals :
    (entries : List (Entry Bytes))
    → new_searcher_re (map as_regex entries) ≡ as_searcher_re (new_searcher entries)
unfolding new_searcher_re new_searcher
new_searcher-literals entries = sort_entries-literals 0 entries no_patterns
