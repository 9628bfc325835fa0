-- ===== src/Driver/Lists.antt =====
-- Which test sets the lines of a file make.
use custom_shell.Prelude.{
  ℕ, Bool, true, false, List, [], ◌∷◌, ◌++◌, append_assoc, append-nil, Bytes, Option, ◌≡◌, refl,
  sym, ap, ◌∙◌, if◌then◌else◌,
}
use custom_shell.Python.Exec.{Outcome, ok, raised, blocked, name_error}
use custom_shell.Driver.{
  TestSet, Line, header, test, other, is_selected, append_test, add_line, add_lines,
}

-- A file, cut at its headers: the tests before the first one, and a set for each of them.
pub record Sections : Type 0 where
  pub lead : List (ℕ × Bytes)
  pub sets : List TestSet

abbrev pub sections : Option Bytes → Bytes → List Line → Sections
sections testfilter dir [] = record { lead = []; sets = [] }
sections testfilter dir (header name ∷ lines) =
    let rest = sections testfilter dir lines in
    record { lead = []; sets = record { name = name; tests = rest.lead; dir = dir } ∷ rest.sets }
sections testfilter dir (test points name ∷ lines) =
    let rest = sections testfilter dir lines in
    record {
      lead = if is_selected testfilter name then (points, name) ∷ rest.lead else rest.lead;
      sets = rest.sets;
    }
sections testfilter dir (other ∷ lines) = sections testfilter dir lines

-- More tests for the last set.
abbrev pub extend_last : TestSet → List TestSet → List (ℕ × Bytes) → List TestSet
extend_last s [] lead = record s { tests = s.tests ++ lead } ∷ []
extend_last s (u ∷ rest) lead = s ∷ extend_last u rest lead

-- The tests before the first header belong to the last old set; without one they are an error.
abbrev pub put_sections : List TestSet → List (ℕ × Bytes) → List TestSet → Outcome (List TestSet)
put_sections [] [] sets = ok sets
put_sections [] (t ∷ lead) sets = raised name_error
put_sections (s ∷ old) lead sets = ok (extend_last s old lead ++ sets)

append_test-last :
    (t : ℕ × Bytes) (s : TestSet) (old : List TestSet)
    → append_test t (s ∷ old) ≡ ok (extend_last s old (t ∷ []))
unfolding append_test
append_test-last t s [] = refl
append_test-last t s (u ∷ old) = rw (append_test-last t u old) refl

extend_last-none : (s : TestSet) (old : List TestSet) → extend_last s old [] ≡ s ∷ old
extend_last-none s [] =
    ap (λ (ts : List (ℕ × Bytes)). record s { tests = ts } ∷ []) (append-nil s.tests)
extend_last-none s (u ∷ old) = ap (λ l. s ∷ l) (extend_last-none u old)

-- An old set that is extended, and then more.
extend_last-more :
    (s : TestSet) (old : List TestSet) (t : ℕ × Bytes) (lead : List (ℕ × Bytes))
    (sets : List TestSet)
    → put_sections (extend_last s old (t ∷ [])) lead sets
      ≡ ok (extend_last s old (t ∷ lead) ++ sets)
extend_last-more s [] t lead sets =
    ap (λ (ts : List (ℕ × Bytes)). ok (record s { tests = ts } ∷ sets))
      (append_assoc s.tests (t ∷ []) lead)
extend_last-more s (u ∷ []) t lead sets =
    ap (λ (ts : List (ℕ × Bytes)). ok (s ∷ record u { tests = ts } ∷ sets))
      (append_assoc u.tests (t ∷ []) lead)
extend_last-more s (u ∷ v ∷ old) t lead sets =
    ap (λ o. elim o [ ok m ↦ ok (s ∷ m) | raised x ↦ raised x | blocked ↦ blocked ])
      (extend_last-more u (v ∷ old) t lead sets)

-- A new set behind the old ones takes the tests.
extend_last-new :
    (s u : TestSet) (old : List TestSet) (lead : List (ℕ × Bytes))
    → extend_last s (old ++ u ∷ []) lead ≡ (s ∷ old) ++ record u { tests = u.tests ++ lead } ∷ []
extend_last-new s u [] lead = refl
extend_last-new s u (v ∷ old) lead = ap (λ l. s ∷ l) (extend_last-new v u old lead)

put_sections-nothing : (old : List TestSet) → put_sections old [] [] ≡ ok old
put_sections-nothing [] = refl
put_sections-nothing (s ∷ old) = ap ok (append-nil _ ∙ extend_last-none s old)

put_sections-header :
    (name dir : Bytes) (old : List TestSet) (lead : List (ℕ × Bytes)) (sets : List TestSet)
    → put_sections (old ++ record { name = name; tests = []; dir = dir } ∷ []) lead sets
      ≡ put_sections old [] (record { name = name; tests = lead; dir = dir } ∷ sets)
put_sections-header name dir [] lead sets = refl
put_sections-header name dir (s ∷ old) lead sets = ap ok (
    ap (λ l. l ++ sets) (extend_last-new s (record { name = name; tests = []; dir = dir }) old lead)
    ∙ append_assoc (s ∷ old) (record { name = name; tests = lead; dir = dir } ∷ []) sets
    ∙ ap (λ l. l ++ record { name = name; tests = lead; dir = dir } ∷ sets)
        (sym (extend_last-none s old)))

module _ (testfilter : Option Bytes) (dir : Bytes) where
  abbrev Reads : List Line → Type 0
  Reads lines =
      (old : List TestSet)
      → add_lines testfilter dir lines old
        ≡ put_sections old (sections testfilter dir lines).lead (sections testfilter dir lines).sets

  under_test :
      (b : Bool) (t : ℕ × Bytes) (lines : List Line) (old : List TestSet)
      → Reads lines
      → (elim (if b then append_test t old else ok old) [
        | ok next ↦ add_lines testfilter dir lines next
        | raised e ↦ raised e
        | blocked ↦ blocked
      ])
        ≡ put_sections old
            (if b
              then t ∷ (sections testfilter dir lines).lead
              else (sections testfilter dir lines).lead)
            (sections testfilter dir lines).sets
  unfolding append_test
  under_test false t lines old k = k old
  under_test true t lines [] k = refl
  under_test true t lines (s ∷ old) k = rw (append_test-last t s old) (
      k (extend_last s old (t ∷ []))
      ∙ extend_last-more s old t (sections testfilter dir lines).lead
          (sections testfilter dir lines).sets)

  -- Reading the lines of a file gives what cutting the file at its headers gives: behind the old sets one
  -- set for each header, with its name and with the tests that stand between it and the next header and
  -- that the filter selects, in their order. The selected tests before the first header go to the last old
  -- set; where there is no old set, and only where there are such tests, the outcome is a `NameError`.
  pub add_lines-sections :
      (lines : List Line) (old : List TestSet)
      → add_lines testfilter dir lines old
        ≡ put_sections old (sections testfilter dir lines).lead (sections testfilter dir lines).sets
  unfolding add_lines add_line
  add_lines-sections [] old = sym (put_sections-nothing old)
  add_lines-sections (header name ∷ lines) old =
      add_lines-sections lines (old ++ record { name = name; tests = []; dir = dir } ∷ [])
      ∙ put_sections-header name dir old _ _
  add_lines-sections (other ∷ lines) old = add_lines-sections lines old
  add_lines-sections (test points name ∷ lines) old =
      under_test (is_selected testfilter name) (points, name) lines old (add_lines-sections lines)
