-- ===== src/ProcCheck/Counting.antt =====
-- What the counts of children count.
use custom_shell.Prelude.{
  ℕ, ◌+◌, Bool, true, false, List, [], ◌∷◌, ◌++◌, Bytes, Option, none, some, ◌==◌, ◌&&◌, ◌||◌, not,
  leb, length, ◌≡◌, ◌≢◌, ◌⊎◌, inl, inr, refl, arith, Bool-cases, ==_iff, if◌then◌else◌, ap, sym,
  subst,
}
use custom_shell.Prelude.Int.{ℤ, pos, negsuc, pos_part}
use custom_shell.Python.Exec.{Outcome, ok, raised, assertion_error, type_error}
use custom_shell.Pexpect.Reading.{or_default}
use custom_shell.ProcCheck.{
  Stats, is_child, count_names, assert_count, count_active_children, Look, has_pid, add_child,
  add_line, add_name, add_names, add_looks, rounds_of, count_looks, count_children_timeout, int_of,
}

-- The names of children among `names`.
abbrev pub children : Stats → ℕ → List Bytes → List Bytes
children stats shell [] = []
children stats shell (name ∷ names) =
    if is_child stats shell name
    then name ∷ children stats shell names
    else children stats shell names

count_names-length :
    (stats : Stats) (shell : ℕ) (names : List Bytes) (n : ℕ)
    → count_names stats shell names n ≡ n + length (children stats shell names)
unfolding count_names
count_names-length stats shell [] n = omega arith
count_names-length stats shell (name ∷ names) n = elim (Bool-cases (is_child stats shell name)) [
  | inl e ↦ rw e (omega (arith, count_names-length stats shell names (n + 1)))
  | inr e ↦ rw e (count_names-length stats shell names n)
]

count_names_lem :
    (stats : Stats) (shell : ℕ) (names : List Bytes)
    → count_names stats shell names 0 ≡ length (children stats shell names)
count_names_lem stats shell names = omega (arith, count_names-length stats shell names 0)

-- Success, with the expected number, or a failed assertion.
abbrev pub Verdict {ℓ} : {A : Type ℓ} → ℕ → ℤ → A → Outcome A → Type ℓ
Verdict found expected a o =
    ((expected ≡ pos found) × (o ≡ ok a)) ⊎ ((expected ≢ pos found) × (o ≡ raised assertion_error))

assert_count-Verdict :
    {A : Type 0} (found expected : ℕ) (a : A)
    → Verdict found (pos expected) a (assert_count found expected a)
unfolding assert_count
assert_count-Verdict found expected a = elim (Bool-cases (leb expected found)) [
  | inl l ↦ elim (Bool-cases (found == expected)) [
    | inl e ↦ rw (l, e) (inl (ap pos (sym ((==_iff found expected).0 e)), refl))
    | inr n ↦ rw (l, n) (inr ((λ x. unequal n (ap pos_part x)), refl))
  ]
  | inr l ↦ rw l (inr ((λ x. too_few l (ap pos_part x)), refl))
]
  where
    unequal : (found == expected) ≡ false → expected ≡ found → ⊥
    unequal n x = ground arith

    too_few : leb expected found ≡ false → expected ≡ found → ⊥
    too_few l x = ground arith

-- `count_active_children` succeeds exactly if the number of names in /proc that are pids of children
-- of the shell is the expected one; otherwise an assertion fails, as it does for a negative number.
pub count_active_children-Verdict :
    (stats : Stats) (shell : ℕ) (names : List Bytes) (expected : ℤ)
    → Verdict
        (length (children stats shell names))
        expected
        tt
        (count_active_children stats shell names expected)
unfolding count_active_children
count_active_children-Verdict stats shell names (negsuc n) = inr ((λ e. cc), refl)
count_active_children-Verdict stats shell names (pos expected) =
    rw (count_names_lem stats shell names)
      (assert_count-Verdict (length (children stats shell names)) expected tt)

-- A list without repetitions.
abbrev pub IsDistinct : List ℕ → Type 0
IsDistinct [] = Unit
IsDistinct (x ∷ l) = (has_pid x l ≡ false) × IsDistinct l

has_pid-append : (x : ℕ) (l m : List ℕ) → has_pid x (l ++ m) ≡ has_pid x l || has_pid x m
has_pid-append x [] m = refl
has_pid-append x (y ∷ l) m =
    rw (has_pid-append x l m) (or_assoc (x == y) (has_pid x l) (has_pid x m))
  where
    or_assoc : (a b c : Bool) → (a || (b || c)) ≡ ((a || b) || c)
    or_assoc true b c = refl
    or_assoc false b c = refl

append-IsDistinct :
    (l : List ℕ) (x : ℕ) → has_pid x l ≡ false → IsDistinct l → IsDistinct (l ++ x ∷ [])
append-IsDistinct [] x n d = (refl, tt)
append-IsDistinct (y ∷ l) x n d = (
  rw (has_pid-append y l (x ∷ []))
      (apart (x == y) (y == x) (has_pid x l) (has_pid y l) (sym_test x y) n d.0),
  append-IsDistinct l x (right (x == y) (has_pid x l) n) d.1,
)
  where
    right : (a b : Bool) → (a || b) ≡ false → b ≡ false
    right true b h = cc
    right false b h = h

    sym_test : (a b : ℕ) → (a == b) ≡ (b == a)
    sym_test a b = ground arith

    apart : (a b c d : Bool) → a ≡ b → (a || c) ≡ false → d ≡ false → (d || (b || false)) ≡ false
    apart true b c d e n h = cc
    apart false b c d e n h = rw (sym e, h) refl

add_child-IsDistinct :
    (shell : ℕ) (pid ppid : Option ℕ) (found : List ℕ)
    → IsDistinct found
    → IsDistinct (add_child shell pid ppid found)
unfolding add_child
add_child-IsDistinct shell none ppid found d = d
add_child-IsDistinct shell (some pid) none found d = d
add_child-IsDistinct shell (some pid) (some ppid) found d =
    go (has_pid pid found) refl (ppid == shell)
  where
    go :
        (b : Bool)
        → has_pid pid found ≡ b
        → (c : Bool)
        → IsDistinct (if (c && not (has_pid pid found)) then found ++ pid ∷ [] else found)
    go true e true = rw e d
    go true e false = d
    go false e true = rw e (append-IsDistinct found pid e d)
    go false e false = d

module _ (shell : ℕ) where
  add_line-IsDistinct :
      (o : Outcome (Option ℕ × Option ℕ)) (found : List ℕ)
      → IsDistinct found
      → IsDistinct (add_line shell o found)
  unfolding add_line
  add_line-IsDistinct (ok p) found d = add_child-IsDistinct shell p.0 p.1 found d
  add_line-IsDistinct (raised e) found d = d
  add_line-IsDistinct Outcome.blocked found d = d

  add_name-IsDistinct :
      (stats : Stats) (o : Option ℕ) (found : List ℕ)
      → IsDistinct found
      → IsDistinct (add_name shell stats o found)
  unfolding add_name
  add_name-IsDistinct stats none found d = d
  add_name-IsDistinct stats (some pid) found d = add_line-IsDistinct _ found d

  add_names-IsDistinct :
      (stats : Stats) (names : List Bytes) (found : List ℕ)
      → IsDistinct found
      → IsDistinct (add_names shell stats names found)
  unfolding add_names
  add_names-IsDistinct stats [] found d = d
  add_names-IsDistinct stats (name ∷ names) found d =
      add_names-IsDistinct stats names _ (add_name-IsDistinct stats (int_of name) found d)

  add_looks-IsDistinct :
      (looks : List Look) (found : List ℕ)
      → IsDistinct found
      → IsDistinct (add_looks shell looks found)
  unfolding add_looks
  add_looks-IsDistinct [] found d = d
  add_looks-IsDistinct (l ∷ looks) found d =
      add_looks-IsDistinct looks _ (add_names-IsDistinct l.stats l.names found d)

-- What `count_children_timeout` may answer: the expected number of pids, all of them different, a
-- failed assertion, or a `TypeError` where the timeout is -1 and the default is `None`.
abbrev pub Counted : Option ℤ → Option ℤ → ℤ → Outcome (List ℕ) → Type 0
Counted timeout default expected (ok children_found) =
    IsDistinct children_found × (expected ≡ pos (length children_found))
Counted timeout default expected (raised e) =
    (e ≡ assertion_error) ⊎ ((e ≡ type_error) × (timeout ≡ some (negsuc 0)) × (default ≡ none))
Counted timeout default expected Outcome.blocked = ⊥

assert_count-Counted :
    (timeout default : Option ℤ) (l : List ℕ) (expected : ℕ) (o : Outcome (List ℕ))
    → IsDistinct l
    → Verdict (length l) (pos expected) l o
    → Counted timeout default (pos expected) o
assert_count-Counted timeout default l expected o d (inl (e, h)) =
    subst (Counted timeout default (pos expected)) (sym h) (d, e)
assert_count-Counted timeout default l expected o d (inr (n, h)) =
    subst (Counted timeout default (pos expected)) (sym h) (inl refl)

count_looks-Counted :
    (timeout default : Option ℤ) (limit : Option ℤ) (shell : ℕ) (looks : List Look) (expected : ℕ)
    → (limit ≡ none → (timeout ≡ some (negsuc 0)) × (default ≡ none))
    → Counted timeout default (pos expected) (count_looks limit shell looks expected)
unfolding count_looks
count_looks-Counted timeout default none shell looks expected k = inr (refl, (k refl).0, (k refl).1)
count_looks-Counted timeout default (some t) shell looks expected k =
    assert_count-Counted timeout default _ expected _
      (add_looks-IsDistinct shell (rounds_of t looks) [] tt) (assert_count-Verdict _ expected _)

no_default :
    (t : ℤ) (default : Option ℤ)
    → or_default (some t) default ≡ none
    → (some t ≡ some (negsuc 0)) × (default ≡ none)
no_default (pos n) default h = cc
no_default (negsuc n) default h = elim (Bool-cases (n == 0)) [
  | inl e ↦ (ap (λ k. some (negsuc k)) ((==_iff n 0).0 e), rw e at h)
  | inr e ↦ absurd (some_none (rw e at h))
]
  where
    some_none : some (negsuc n) ≡ none → ⊥
    some_none x = cc

-- `count_children_timeout` counts no process twice, however often it is seen: what it returns is a list
-- of different pids, as many as expected. It fails only by an assertion, or by a `TypeError` where the
-- timeout is -1 and `pexpect_mod.timeout` is `None`.
pub count_children_timeout-Counted :
    (timeout default : Option ℤ) (shell : ℕ) (looks : List Look) (expected : ℤ)
    → Counted timeout default expected (count_children_timeout timeout default shell looks expected)
unfolding count_children_timeout
count_children_timeout-Counted none default shell looks expected = inl refl
count_children_timeout-Counted (some timeout) default shell looks (negsuc n) = inl refl
count_children_timeout-Counted (some timeout) default shell looks (pos expected) =
    count_looks-Counted (some timeout) default (or_default (some timeout) default) shell looks
      expected (no_default timeout default)
