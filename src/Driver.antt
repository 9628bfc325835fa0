-- ===== src/Driver.antt =====
-- tests/stdriver.py: the lists of tests, and the grades.
pub mod Lists
pub mod Grades
mod Examples
use custom_shell.Prelude.{
  ℕ, ◌+◌, ◌*◌, ◌-◌, Bool, true, false, List, [], ◌∷◌, ◌++◌, Bytes, codes, Option, none, some, ◌==◌,
  ◌&&◌, if◌then◌else◌, bytes_eq,
}
use custom_shell.Python.Text
use custom_shell.Python.Text.{is_digit}
use custom_shell.Python.Regex
use custom_shell.Python.Regex.{Regex, Match, byte, seq, some_of, group, literal, group_value}
use custom_shell.Python.Exec.{Outcome, ok, raised, blocked, name_error, system_exit}

-- A test list: its name, its tests with their points, and the directory of the file.
pub record TestSet : Type 0 where
  pub name : Bytes
  pub tests : List (ℕ × Bytes)
  pub dir : Bytes

abbrev rest_of_line : Regex
rest_of_line = group 2 (some_of (byte (λ c. if c == 10 then false else true)))

-- `^= (.+)` and `(\d+) (.+)`; the text of the first one has the number 2 here.
abbrev header_regex : Regex
header_regex = seq (literal (codes "= ")) rest_of_line

abbrev test_regex : Regex
test_regex = seq (group 1 (some_of (byte is_digit))) (seq (literal (codes " ")) rest_of_line)

-- `int` of digits.
int_of : ℕ → Bytes → ℕ
int_of n [] = n
int_of n (c ∷ s) = int_of (n * 10 + (c - 48)) s

-- What a line is.
pub data Line : Type 0 where
  header : Bytes → Line
  test : ℕ → Bytes → Line
  other : Line

to_test : Option Match → Line
unfolding group_value int_of
to_test none = other
to_test (some m) = test (int_of 0 (group_value 1 m.groups)) (group_value 2 m.groups)

to_line : Option Match → Option Match → Line
unfolding group_value to_test
to_line (some m) t = header (group_value 2 m.groups)
to_line none t = to_test t

unfoldable pub read_line : Bytes → Line
unfolding to_line Regex.match
read_line line = to_line (Regex.match header_regex line) (Regex.match test_regex line)

-- `not testfilter or testname.find(testfilter) != -1`
is_found : Option ℕ → Bool
is_found none = false
is_found (some i) = true

unfoldable pub is_selected : Option Bytes → Bytes → Bool
unfolding is_found Text.find
is_selected none testname = true
is_selected (some []) testname = true
is_selected (some (c ∷ f)) testname = is_found (Text.find testname (c ∷ f) 0)

-- `testset['tests'].append(…)`: `testset` is the set that was appended last, in this file or in one
-- before; without any, the name is unbound.
append_test : ℕ × Bytes → List TestSet → Outcome (List TestSet)
append_test t [] = raised name_error
append_test t (s ∷ []) = ok (record s { tests = s.tests ++ t ∷ [] } ∷ [])
append_test t (s ∷ u ∷ rest) = elim (append_test t (u ∷ rest)) [
  | ok l ↦ ok (s ∷ l)
  | raised e ↦ raised e
  | blocked ↦ blocked
]

add_line : Option Bytes → Bytes → Line → List TestSet → Outcome (List TestSet)
unfolding append_test is_selected
add_line testfilter dir (header name) full_testlist =
    ok (full_testlist ++ record { name = name; tests = []; dir = dir } ∷ [])
add_line testfilter dir (test points testname) full_testlist =
    if is_selected testfilter testname
    then append_test (points, testname) full_testlist
    else ok full_testlist
add_line testfilter dir other full_testlist = ok full_testlist

-- The loop over the lines of a file.
unfoldable pub add_lines : Option Bytes → Bytes → List Line → List TestSet → Outcome (List TestSet)
unfolding add_line
add_lines testfilter dir [] full_testlist = ok full_testlist
add_lines testfilter dir (l ∷ lines) full_testlist =
    elim (add_line testfilter dir l full_testlist) [
      | ok next ↦ add_lines testfilter dir lines next
      | raised e ↦ raised e
      | blocked ↦ blocked
    ]

read_all : List Bytes → List Line
unfolding read_line
read_all [] = []
read_all (l ∷ lines) = read_line l ∷ read_all lines

-- A file of the command line: the directory with its slash, and the lines, if it can be opened.
pub record TestFile : Type 0 where
  pub dir : Bytes
  pub lines : Option (List Bytes)

add_file : Option Bytes → TestFile → Option (List Bytes) → List TestSet → Outcome (List TestSet)
unfolding add_lines read_all
add_file testfilter f none full_testlist = raised system_exit
add_file testfilter f (some lines) full_testlist =
    add_lines testfilter f.dir (read_all lines) full_testlist

unfoldable pub read_files : Option Bytes → List TestFile → List TestSet → Outcome (List TestSet)
unfolding add_file
read_files testfilter [] full_testlist = ok full_testlist
read_files testfilter (f ∷ files) full_testlist =
    elim (add_file testfilter f f.lines full_testlist) [
      | ok next ↦ read_files testfilter files next
      | raised e ↦ raised e
      | blocked ↦ blocked
    ]

-- A test that has run: its points, its name, and whether it has passed.
pub record Result : Type 0 where
  pub points : ℕ
  pub name : Bytes
  pub passed : Bool

-- `passes` is the exit status 0 of the test's process, by the path of the test.
run_tests : (Bytes → Bool) → Bytes → List (ℕ × Bytes) → List Result
run_tests passes dir [] = []
run_tests passes dir (t ∷ tests) =
    record { points = t.0; name = t.1; passed = passes (dir ++ t.1) } ∷ run_tests passes dir tests

-- The points of a set: those that are earned, and all.
pub record Score : Type 0 where
  pub points : ℕ
  pub max : ℕ

add_results : List Result → Score → Score
add_results [] s = s
add_results (r ∷ results) s =
    add_results results
      (record { points = s.points + (if r.passed then r.points else 0); max = s.max + r.points })

unfoldable pub grade : (Bytes → Bool) → TestSet → Score
unfolding run_tests add_results
grade passes s = add_results (run_tests passes s.dir s.tests) (record { points = 0; max = 0 })

-- `sum_points[testset['name']] = …`: a set of the same name replaces the one before.
put_score : Bytes → Score → List (Bytes × Score) → List (Bytes × Score)
put_score name s [] = (name, s) ∷ []
put_score name s ((k, v) ∷ d) = if bytes_eq k name then (k, s) ∷ d else (k, v) ∷ put_score name s d

unfoldable pub sum_points :
    (Bytes → Bool) → List TestSet → List (Bytes × Score) → List (Bytes × Score)
unfolding grade put_score
sum_points passes [] d = d
sum_points passes (s ∷ sets) d = sum_points passes sets (put_score s.name (grade passes s) d)
