-- ===== src/Pexpect/Patterns.antt =====
-- `expect`, `expect_list`, `expect_exact` and `compile_pattern_list` of `spawn` in
-- pexpect-dpty/pexpect.py.
pub mod Literals
mod Examples
use custom_shell.Prelude.{
  ℕ, Bool, ◌-◌, ◌≤◌, List, ◌⊎◌, inl, inr, subst, ap, refl, [], ◌∷◌, Bytes, Option, none, some,
  length, ◌≡◌, arith,
}
use custom_shell.Prelude.Int.{ℤ}
use custom_shell.Python.Exec.{type_error, re_error, pure, raise, gets, ◌>>=◌}
use custom_shell.Python.Regex.{Regex, Match}
use custom_shell.Pexpect.Machine.{M, self}
use custom_shell.Pexpect.Searcher.{Entry, Searcher, Found, new_searcher, search_string}
use custom_shell.Pexpect.Searcher.Leftmost.{search_string-IsLeftmost}
use custom_shell.Pexpect.SearcherRe.{new_searcher_re, search_re}
use custom_shell.Pexpect.SearcherRe.Leftmost.{search_re-IsLeftmost}
use custom_shell.Pexpect.Expect.{Span, Searching, WindowArg, expect_loop}

abbrev pub to_span {ℓ} : {A : Type ℓ} → (A → List (ℕ × Bytes)) → Option (Found A) → Option Span
to_span groups none = none
to_span groups (some f) =
    some (record { index = f.index; start = f.start; end = f.end; groups = groups f.match })

-- A text has no groups; a match has those of its expression.
abbrev pub no_groups : Bytes → List (ℕ × Bytes)
no_groups s = []

abbrev pub match_groups : Match → List (ℕ × Bytes)
match_groups m = m.groups

abbrev ends : Option Span → ℕ × ℕ
ends none = (0, 0)
ends (some f) = (f.start, f.end)

-- A place in a buffer of length `n`.
abbrev pub IsWithin : ℕ → ℕ → ℕ → Type 0
IsWithin n start end = (start ≤ end) × (end ≤ n)

span-IsWithin :
    {A : Type 0} (groups : A → List (ℕ × Bytes)) (n : ℕ) (o : Option (Found A)) (f : Span)
    → ((g : Found A) → o ≡ some g → IsWithin n g.start g.end)
    → to_span groups o ≡ some f
    → IsWithin n f.start f.end
span-IsWithin groups n none f k h = cc
span-IsWithin groups n (some g) f k h =
    subst (λ (p : ℕ × ℕ). IsWithin n p.0 p.1) (ap ends h) (k g refl)

pub string-IsWithin :
    (searcher : Searcher Bytes) (buffer : Bytes) (freshlen : ℕ) (window : Option ℕ) (f : Span)
    → to_span no_groups (search_string searcher buffer freshlen window) ≡ some f
    → IsWithin (length buffer) f.start f.end
string-IsWithin searcher buffer freshlen window f =
    span-IsWithin no_groups (length buffer) (search_string searcher buffer freshlen window) f
      (λ g h.
        let l = search_string-IsLeftmost searcher buffer freshlen window g h in
        omega (arith, l.end, l.fits))

pub re-IsWithin :
    (searcher : Searcher Regex) (buffer : Bytes) (freshlen : ℕ) (window : Option ℕ) (f : Span)
    → to_span match_groups (search_re searcher buffer freshlen window) ≡ some f
    → IsWithin (length buffer) f.start f.end
re-IsWithin searcher buffer freshlen window f =
    span-IsWithin match_groups (length buffer) (search_re searcher buffer freshlen window) f (λ g h.
      let l = search_re-IsLeftmost searcher buffer freshlen window g h in (l.fits.1, l.fits.2))

-- The two searchers, as the loop uses them.
unfoldable pub searching_string : Searcher Bytes → Searching
unfolding search_string
searching_string searcher = record {
  search =
      λ buffer freshlen window. to_span no_groups (search_string searcher buffer freshlen window);
  eof_index = searcher.eof_index;
  timeout_index = searcher.timeout_index;
  within = string-IsWithin searcher;
}

unfoldable pub searching_re : Searcher Regex → Searching
unfolding search_re
searching_re searcher = record {
  search =
      λ buffer freshlen window. to_span match_groups (search_re searcher buffer freshlen window);
  eof_index = searcher.eof_index;
  timeout_index = searcher.timeout_index;
  within = re-IsWithin searcher;
}

-- What a pattern may be: a string, `EOF`, `TIMEOUT`, a compiled expression, or a value of any other type.
-- A string stands as what `re.compile` gives of it, with IGNORECASE or without; `none` is `re.error`.
pub data Pattern : Type 0 where
  text : (Bool → Option Regex) → Pattern
  eof_type : Pattern
  timeout_type : Pattern
  compiled : Regex → Pattern
  other : Pattern

-- The argument of `expect`: `None`, one pattern, or a list.
pub data Patterns : Type 0 where
  nothing : Patterns
  single : Pattern → Patterns
  several : List Pattern → Patterns

-- A string for which IGNORECASE makes no difference.
abbrev pub plain : Regex → Pattern
plain r = text (λ ignorecase. some r)

compile_text : Option Regex → M (Entry Regex)
compile_text none = raise re_error
compile_text (some r) = pure (Entry.pattern r)

compile_entry : Bool → Pattern → M (Entry Regex)
unfolding compile_text
compile_entry ignorecase (text compile) = compile_text (compile ignorecase)
compile_entry ignorecase eof_type = pure Entry.eof
compile_entry ignorecase timeout_type = pure Entry.timeout
compile_entry ignorecase (compiled r) = pure (Entry.pattern r)
compile_entry ignorecase other = raise type_error

compile_all : Bool → List Pattern → M (List (Entry Regex))
unfolding compile_entry
compile_all ignorecase [] = pure []
compile_all ignorecase (p ∷ patterns) = do
  e ← compile_entry ignorecase p
  rest ← compile_all ignorecase patterns
  pure (e ∷ rest)

unfoldable pub compile_pattern_list : Patterns → M (List (Entry Regex))
unfolding compile_all self gets ◌>>=◌ pure raise
compile_pattern_list nothing = pure []
compile_pattern_list (single p) = do o ← self; compile_all o.ignorecase (p ∷ [])
compile_pattern_list (several patterns) = do o ← self; compile_all o.ignorecase patterns

unfoldable pub expect_list : List (Entry Regex) → Option ℤ → WindowArg → M (Option ℕ)
unfolding expect_loop searching_re new_searcher_re
expect_list patterns timeout window =
    expect_loop (searching_re (new_searcher_re patterns)) timeout window

-- The argument of `expect_exact` is one entry or a list of entries.
unfoldable pub expect_exact : Entry Bytes ⊎ List (Entry Bytes) → Option ℤ → WindowArg → M (Option ℕ)
unfolding expect_loop searching_string new_searcher
expect_exact (inl e) timeout window =
    expect_loop (searching_string (new_searcher (e ∷ []))) timeout window
expect_exact (inr entries) timeout window =
    expect_loop (searching_string (new_searcher entries)) timeout window

unfoldable pub expect : Patterns → Option ℤ → WindowArg → M (Option ℕ)
unfolding compile_pattern_list expect_list ◌>>=◌
expect patterns timeout window = do
  compiled_pattern_list ← compile_pattern_list patterns
  expect_list compiled_pattern_list timeout window
