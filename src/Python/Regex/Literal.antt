-- ===== src/Python/Regex/Literal.antt =====
-- Expressions without a choice: a literal text, which is searched as `str.find` does, and a fixed
-- number of bytes.
use custom_shell.Prelude.{
  ℕ, zero, suc, ◌+◌, ◌≤◌, List, [], ◌∷◌, Bytes, Option, none, some, leb, ◌==◌, if◌then◌else◌,
  length, drop, ◌≡◌, refl, ◌∙◌, ap, arith, Bool-cases, inl, inr, ==_comm, le→leb, ◌<◌,
}
use custom_shell.Python.Text.{starts_with, find_at, find}
use custom_shell.Python.Regex.{
  Regex, literal, any_bytes, Cursor, Next, run, Match, to_match, match_at, search_at, search,
}

-- The cursor at position `i`, before the text `s`.
abbrev at_text : Bytes → ℕ → List (ℕ × Bytes) → Cursor
at_text s i groups = record { rest = s; pos = i; groups = groups }

-- A literal text is matched by that text alone.
run-literal :
    (sub s : Bytes) (i : ℕ) (groups : List (ℕ × Bytes)) (next : Next)
    → run (literal sub) next (at_text s i groups) ≡ (
        if starts_with sub s
        then next (at_text (drop (length sub) s) (i + length sub) groups)
        else none)
unfolding run starts_with
run-literal [] s i groups next = ap (λ k. next (at_text s k groups)) (omega arith)
run-literal (p ∷ ps) [] i groups next = refl
run-literal (p ∷ ps) (b ∷ s) i groups next = elim (Bool-cases (b == p)) [
  | inl hit ↦
      rw (hit, ==_comm p b, hit)
        (run-literal ps s (suc i) groups next
          ∙ ap
              (λ k. if starts_with ps s then next (at_text (drop (length ps) s) k groups) else none)
              (omega arith))
  | inr miss ↦ rw (miss, ==_comm p b, miss) refl
]

-- What `str.find` finds, as a match.
abbrev pub to_literal : Bytes → Option ℕ → Option Match
to_literal sub none = none
to_literal sub (some i) = some (record { start = i; end = i + length sub; groups = [] })

match_at-literal :
    (sub s : Bytes) (i : ℕ)
    → match_at (literal sub) s i ≡ to_literal sub (if starts_with sub s then some i else none)
unfolding match_at to_match
match_at-literal sub s i =
    ap (to_match i) (run-literal sub s i [] some)
    ∙ elim (Bool-cases (starts_with sub s)) [ inl hit ↦ rw (hit) refl | inr miss ↦ rw (miss) refl ]

search_at-step :
    (x : Regex) (b : ℕ) (s : Bytes) (i : ℕ) (o : Option Match)
    → match_at x (b ∷ s) i ≡ o
    → search_at x (b ∷ s) i ≡ elim o [ some m ↦ some m | none ↦ search_at x s (suc i) ]
unfolding search_at
search_at-step x b s i o h = ap (λ o. elim o [ some m ↦ some m | none ↦ search_at x s (suc i) ]) h

search_at-literal :
    (sub s : Bytes) (i : ℕ) → search_at (literal sub) s i ≡ to_literal sub (find_at sub s i)
unfolding search_at find_at
search_at-literal sub [] i = match_at-literal sub [] i
search_at-literal sub (b ∷ s) i =
    search_at-step (literal sub) b s i _ (match_at-literal sub (b ∷ s) i)
    ∙ elim (Bool-cases (starts_with sub (b ∷ s))) [
      | inl hit ↦ rw hit refl
      | inr miss ↦ rw miss (
          search_at-literal sub s (suc i)
          ∙ ap (λ k. to_literal sub (find_at sub s k)) (omega arith))
    ]

-- A search for a literal text is `str.find`: it finds the first place of the text at or behind the
-- start, and its match is the text there; where `find` returns -1 there is no match.
pub search-literal :
    (sub s : Bytes) (start : ℕ) → search (literal sub) s start ≡ to_literal sub (find s sub start)
unfolding search find
search-literal sub s start = elim (Bool-cases (leb start (length s))) [
  | inl le ↦ rw le (search_at-literal sub (drop start s) start)
  | inr gt ↦ rw gt refl
]

-- `.{n}` takes the next `n` bytes, where there are so many.
run-any_bytes :
    (n : ℕ) (s : Bytes) (i : ℕ) (groups : List (ℕ × Bytes)) (next : Next)
    → n ≤ length s
    → run (any_bytes n) next (at_text s i groups) ≡ next (at_text (drop n s) (i + n) groups)
unfolding run
run-any_bytes zero s i groups next l = ap (λ k. next (at_text s k groups)) (omega arith)
run-any_bytes (suc n) [] i groups next l = absurd (omega arith)
run-any_bytes (suc n) (b ∷ s) i groups next l =
    run-any_bytes n s (suc i) groups next (omega arith)
    ∙ ap (λ k. next (at_text (drop n s) k groups)) (omega arith)

run-any_bytes-none :
    (n : ℕ) (s : Bytes) (i : ℕ) (groups : List (ℕ × Bytes)) (next : Next)
    → length s < n
    → run (any_bytes n) next (at_text s i groups) ≡ none
unfolding run
run-any_bytes-none zero s i groups next l = absurd (omega arith)
run-any_bytes-none (suc n) [] i groups next l = refl
run-any_bytes-none (suc n) (b ∷ s) i groups next l =
    run-any_bytes-none n s (suc i) groups next (omega arith)

match_at-any_bytes-none :
    (n : ℕ) (s : Bytes) (i : ℕ) → length s < n → match_at (any_bytes n) s i ≡ none
unfolding match_at to_match
match_at-any_bytes-none n s i l = ap (to_match i) (run-any_bytes-none n s i [] some l)

search_at-any_bytes-none :
    (n : ℕ) (s : Bytes) (i : ℕ) → length s < n → search_at (any_bytes n) s i ≡ none
unfolding search_at
search_at-any_bytes-none n [] i l = match_at-any_bytes-none n [] i l
search_at-any_bytes-none n (b ∷ s) i l =
    search_at-step (any_bytes n) b s i _ (match_at-any_bytes-none n (b ∷ s) i l)
    ∙ search_at-any_bytes-none n s (suc i) (omega arith)

-- In a text that is shorter than `n`, `.{n}` finds nothing.
pub search-any_bytes-none : (n : ℕ) (s : Bytes) → length s < n → search (any_bytes n) s 0 ≡ none
unfolding search
search-any_bytes-none n s l =
    rw (le→leb 0 (length s) (omega arith)) (search_at-any_bytes-none n s 0 l)

match_at-any_bytes :
    (n : ℕ) (s : Bytes)
    → n ≤ length s
    → match_at (any_bytes n) s 0 ≡ some (record { start = 0; end = n; groups = [] })
unfolding match_at to_match
match_at-any_bytes n s l =
    ap (to_match 0) (run-any_bytes n s 0 [] some l)
    ∙ ap (λ k. some (record { start = 0; end = k; groups = [] })) (omega arith)

-- In any other text it finds the first `n` bytes.
pub search-any_bytes :
    (n : ℕ) (s : Bytes)
    → suc n ≤ length s
    → search (any_bytes (suc n)) s 0 ≡ some (record { start = 0; end = suc n; groups = [] })
unfolding search
search-any_bytes n [] l = absurd (omega arith)
search-any_bytes n (b ∷ s) l =
    rw (le→leb 0 (suc (length s)) (omega arith))
      (search_at-step (any_bytes (suc n)) b s 0 _ (match_at-any_bytes (suc n) (b ∷ s) l))
