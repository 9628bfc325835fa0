-- ===== src/Pexpect/Patterns/Literals.antt =====
-- Plain texts as patterns: `expect_exact`, and `expect` with their literal expressions.
use custom_shell.Prelude.{
  ℕ, zero, suc, Bool, false, ◌==◌, if◌then◌else◌, List, [], ◌∷◌, ◌++◌, map, Bytes, Option, none,
  some, length, ◌≡◌, ◌≢◌, refl, sym, ◌∙◌, ap, inr, arith,
}
use custom_shell.Prelude.Int.{ℤ}
use custom_shell.Python.Exec.{pure, gets, ◌>>=◌}
use custom_shell.Python.Regex.{Regex, byte, empty, seq, literal}
use custom_shell.Python.Text.{back_start}
use custom_shell.Pexpect.Machine.{Machine, M, self}
use custom_shell.Pexpect.Sending.{lower}
use custom_shell.Pexpect.Searcher.{
  Entry, eof, timeout, pattern, Searcher, Found, search_back, search_string, new_searcher,
}
use custom_shell.Pexpect.Searcher.Fresh.{search-fresh, search_string-window}
use custom_shell.Pexpect.SearcherRe.{search_start}
use custom_shell.Pexpect.SearcherRe.Literals.{
  map_found, as_regex, as_searcher_re, search-literals, new_searcher-literals,
}
use custom_shell.Pexpect.Expect.{window_of, expect_loop}
use custom_shell.Pexpect.Expect.Alike.{Alike, expect_loop-same}
use custom_shell.Pexpect.Patterns.{
  to_span, no_groups, match_groups, searching_string, searching_re, Pattern, text, eof_type,
  timeout_type, several, compile_all, compile_pattern_list, expect_list, expect_exact, expect,
}

-- Where the searches begin, if all of the buffer is fresh.
same_start :
    (buffer : Bytes) (window : Option ℕ) (s : Bytes)
    → window ≢ some 0
    → back_start buffer (search_back (length buffer) window s) ≡ search_start buffer window
unfolding back_start search_back search_start
same_start buffer none s ne = ground arith
same_start buffer (some zero) s ne = absurd (ne refl)
same_start buffer (some (suc k)) s ne = ground arith

to_span-found :
    (o : Option (Found Bytes)) → to_span match_groups (map_found o) ≡ to_span no_groups o
to_span-found none = refl
to_span-found (some f) = refl

to_span-none : (o : Option (Found Bytes)) → to_span no_groups o ≡ none → o ≡ none
to_span-none none h = refl
to_span-none (some f) h = cc

module _ (searcher : Searcher Bytes) where
  -- A search that is told how much is fresh finds what a search of all of the buffer finds.
  IsFull : Option ℕ → Bytes → ℕ → Type 0
  IsFull window s n = search_string searcher s n window ≡ search_string searcher s (length s) window

  IsFull-more :
      (window : Option ℕ) (s : Bytes) (n : ℕ) (c : Bytes)
      → IsFull window s n
      → search_string searcher s n window ≡ none
      → IsFull window (s ++ c) (length c)
  unfolding IsFull
  IsFull-more none s n c full missed = search-fresh searcher s c (sym full ∙ missed)
  IsFull-more (some w) s n c full missed = search_string-window searcher (s ++ c) _ _ w

  searching-Alike :
      (window : Option ℕ)
      → window ≢ some 0
      → Alike (searching_string searcher) (searching_re (as_searcher_re searcher)) window
  unfolding searching_string searching_re IsFull
  searching-Alike window ne = record {
    Same = IsFull window;
    begin = λ s. refl;
    more = λ s n c full missed.
        IsFull-more window s n c full (to_span-none (search_string searcher s n window) missed);
    search = λ s n full.
        ap (to_span no_groups) full
        ∙ sym (to_span-found (search_string searcher s (length s) window))
        ∙ ap (to_span match_groups)
            (sym (search-literals s (length s) window (λ t. same_start s window t ne) searcher));
    eof_index = refl;
    timeout_index = refl;
  }

-- The literal expression of a text, with IGNORECASE or without.
abbrev any_case : Bytes → Regex
any_case [] = empty
any_case (c ∷ s) = seq (byte (λ b. lower b == lower c)) (any_case s)

abbrev pub compile_literal : Bytes → Bool → Option Regex
compile_literal s ignorecase = some (if ignorecase then any_case s else literal s)

-- The patterns of `expect` for the entries of `expect_exact`.
abbrev pub as_pattern : Entry Bytes → Pattern
as_pattern eof = eof_type
as_pattern timeout = timeout_type
as_pattern (pattern s) = text (compile_literal s)

compile_all-literals :
    (entries : List (Entry Bytes))
    → compile_all false (map as_pattern entries) ≡ pure (map as_regex entries)
unfolding compile_all ◌>>=◌ pure
compile_all-literals [] = refl
compile_all-literals (eof ∷ entries) =
    ap (λ (c : M (List (Entry Regex))). c >>= λ rest. pure (Entry.eof ∷ rest))
      (compile_all-literals entries)
compile_all-literals (timeout ∷ entries) =
    ap (λ (c : M (List (Entry Regex))). c >>= λ rest. pure (Entry.timeout ∷ rest))
      (compile_all-literals entries)
compile_all-literals (pattern s ∷ entries) =
    ap (λ (c : M (List (Entry Regex))). c >>= λ rest. pure (Entry.pattern (literal s) ∷ rest))
      (compile_all-literals entries)

-- Where `ignorecase` is off, a list of texts, with EOF and TIMEOUT where they stand, does the same in
-- `expect`, each text as its literal expression, as in `expect_exact`, from every such state, with every
-- timeout, and with every window but 0: the outcome is the same, and so are all attributes and all calls of
-- the operating system, of `match` its groups. That `expect_exact` searches only the fresh end of the
-- buffer makes no difference.
pub expect-literals :
    (entries : List (Entry Bytes)) (limit : Option ℤ) (window : Option ℕ) (m : Machine)
    → window ≢ some 0
    → m.self.ignorecase ≡ false
    → expect (several (map as_pattern entries)) limit (window_of window) m
      ≡ expect_exact (inr entries) limit (window_of window) m
unfolding expect compile_pattern_list expect_list expect_exact self gets ◌>>=◌
expect-literals entries limit window m ne exact_case =
    ap
      (λ (b : Bool).
        (compile_all b (map as_pattern entries) >>= λ e. expect_list e limit (window_of window)) m)
      exact_case
    ∙ ap (λ (c : M (List (Entry Regex))). (c >>= λ e. expect_list e limit (window_of window)) m)
        (compile_all-literals entries)
    ∙ ap (λ s. expect_loop (searching_re s) limit (window_of window) m)
        (new_searcher-literals entries)
    ∙ ap (λ (k : M (Option ℕ)). k m)
        (sym (expect_loop-same _ _ window limit (searching-Alike (new_searcher entries) window ne)))
