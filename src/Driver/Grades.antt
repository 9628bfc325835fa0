-- ===== src/Driver/Grades.antt =====
-- What a grade is.
use custom_shell.Prelude.{
  ℕ, ◌+◌, ◌≤◌, Bool, List, [], ◌∷◌, ◌++◌, Bytes, ◌≡◌, arith, Bool-cases, inl, inr, if◌then◌else◌,
}
use custom_shell.Driver.{TestSet, run_tests, Score, add_results, grade}

-- The points of the tests, and of those that pass.
abbrev pub all_points : List (ℕ × Bytes) → ℕ
all_points [] = 0
all_points (t ∷ tests) = t.0 + all_points tests

abbrev pub passing : (Bytes → Bool) → Bytes → List (ℕ × Bytes) → List (ℕ × Bytes)
passing passes dir [] = []
passing passes dir (t ∷ tests) =
    if passes (dir ++ t.1) then t ∷ passing passes dir tests else passing passes dir tests

module _ (passes : Bytes → Bool) (dir : Bytes) where
  abbrev scored : List (ℕ × Bytes) → Score → Score
  scored tests s = add_results (run_tests passes dir tests) s

  add_results-max :
      (tests : List (ℕ × Bytes)) (s : Score) → (scored tests s).max ≡ s.max + all_points tests
  unfolding add_results run_tests
  add_results-max [] s = omega arith
  add_results-max (t ∷ tests) s = omega (
    arith,
    add_results-max tests (record {
      points = s.points + (if passes (dir ++ t.1) then t.0 else 0);
      max = s.max + t.0;
    }),
  )

  add_results-points :
      (tests : List (ℕ × Bytes)) (s : Score)
      → (scored tests s).points ≡ s.points + all_points (passing passes dir tests)
  unfolding add_results run_tests
  add_results-points [] s = omega arith
  add_results-points (t ∷ tests) s = elim (Bool-cases (passes (dir ++ t.1))) [
    | inl e ↦ rw e (
        omega
          (arith, add_results-points tests (record { points = s.points + t.0; max = s.max + t.0 })))
    | inr e ↦ rw e (
        omega
          (arith, add_results-points tests (record { points = s.points + 0; max = s.max + t.0 })))
  ]

  passing-le : (tests : List (ℕ × Bytes)) → all_points (passing passes dir tests) ≤ all_points tests
  passing-le [] = omega arith
  passing-le (t ∷ tests) = elim (Bool-cases (passes (dir ++ t.1))) [
    | inl e ↦ rw e (omega (arith, passing-le tests))
    | inr e ↦ rw e (omega (arith, passing-le tests))
  ]

-- The grade of a set has the points of all its tests as its maximum, and the points of the tests that
-- pass as its points, which are never more.
pub grade-points :
    (passes : Bytes → Bool) (s : TestSet)
    → ((grade passes s).max ≡ all_points s.tests)
      × ((grade passes s).points ≡ all_points (passing passes s.dir s.tests))
      × ((grade passes s).points ≤ (grade passes s).max)
unfolding grade
grade-points passes s =
    let m = add_results-max passes s.dir s.tests (record { points = 0; max = 0 }) in
    let p = add_results-points passes s.dir s.tests (record { points = 0; max = 0 }) in
    (omega (arith, m), omega (arith, p), omega (arith, m, p, passing-le passes s.dir s.tests))
