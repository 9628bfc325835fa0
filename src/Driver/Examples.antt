-- ===== src/Driver/Examples.antt =====
-- A small test list, and the theorems on it.
use custom_shell.Prelude.{Bool, List, [], ◌∷◌, Bytes, codes, some, ◌≡◌, refl, bytes_eq}
use custom_shell.Python.Exec.{ok}
use custom_shell.Driver.{TestSet, Line, read_line, header, test, add_lines, grade}
use custom_shell.Driver.Lists.{sections, put_sections, add_lines-sections}

reads_header : read_line (codes "= Basic tests\n") ≡ header (codes "Basic tests")
unfolding read_line
reads_header = refl

reads_test : read_line (codes "15 basic/fg_test.py\n") ≡ test 15 (codes "basic/fg_test.py")
unfolding read_line
reads_test = refl

abbrev lines : List Line
lines = header (codes "basic") ∷ test 5 (codes "fg.py") ∷ test 10 (codes "bg.py") ∷ []

abbrev basic : TestSet
basic = record { name = codes "basic"; tests = (10, codes "bg.py") ∷ []; dir = codes "./" }

filters : add_lines (some (codes "bg")) (codes "./") lines [] ≡ ok (basic ∷ [])
unfolding add_lines
filters = refl

add_lines-sections_example :
    add_lines (some (codes "bg")) (codes "./") lines []
    ≡ put_sections []
        (sections (some (codes "bg")) (codes "./") lines).lead
        (sections (some (codes "bg")) (codes "./") lines).sets
add_lines-sections_example = add_lines-sections (some (codes "bg")) (codes "./") lines []

-- Only `bg.py` passes.
abbrev passes : Bytes → Bool
passes f = bytes_eq f (codes "./bg.py")

abbrev two : TestSet
two = record basic { tests = (5, codes "fg.py") ∷ (10, codes "bg.py") ∷ [] }

graded : grade passes two ≡ record { points = 10; max = 15 }
unfolding grade
graded = refl
