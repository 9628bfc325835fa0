-- ===== src/Pexpect/SearcherRe/Leftmost.antt =====
-- What `searcher_re.search` finds.
use custom_shell.Prelude.{
  ℕ, ◌≤◌, ◌<◌, List, [], ◌∷◌, Bytes, Option, none, some, length, ◌≡◌, ◌≢◌, ◌⊎◌, inl, inr, refl,
  arith, All, ap, subst, ltb, ltb→lt, Bool-cases, ◌+◌,
}
use custom_shell.Python.Regex
use custom_shell.Python.Regex.{Regex, Match}
use custom_shell.Python.Regex.Bounds.{search-bounds}
use custom_shell.Pexpect.Searcher.{Searcher, Found, Best, best_match}
use custom_shell.Pexpect.SearcherRe.{take_match, search_loop, search_start, search_re}

module _ (buffer : Bytes) (start : ℕ) where
  abbrev pub place : Regex → Option Match
  place s = Regex.search s buffer start

  abbrev loop : List (ℕ × Regex) → Best Match → Best Match
  loop l b = search_loop l buffer start b

  step-le :
      (o : Option Match) (i : ℕ) (b : Best Match) → (take_match o i b).first_match ≤ b.first_match
  unfolding take_match
  step-le o i b = ground arith

  loop-le : (l : List (ℕ × Regex)) (b : Best Match) → (loop l b).first_match ≤ b.first_match
  unfolding search_loop
  loop-le [] b = omega arith
  loop-le ((i, s) ∷ l) b =
      omega (arith, loop-le l (take_match (place s) i b), step-le (place s) i b)

  -- `k` is not behind a match of the entry.
  abbrev pub NotBehind : ℕ → ℕ × Regex → Type 0
  NotBehind k e = (m : Match) → place e.1 ≡ some m → k ≤ m.start

  step-lower :
      (i : ℕ) (s : Regex) (b : Best Match) → NotBehind (take_match (place s) i b).first_match (i, s)
  unfolding take_match
  step-lower i s b m h = ground arith

  loop-lower : (l : List (ℕ × Regex)) (b : Best Match) → All (NotBehind (loop l b).first_match) l
  unfolding search_loop
  loop-lower [] b = tt
  loop-lower ((i, s) ∷ l) b =
      let b' = take_match (place s) i b in
      (λ m h. omega (arith, loop-le l b', step-lower i s b m h), loop-lower l b')

  -- `f` is what the search for an entry gave, and the matches of the entries before it start further
  -- to the right.
  abbrev pub IsChosen : Found Match → List (ℕ × Regex) → Type 0
  IsChosen f [] = ⊥
  IsChosen f (e ∷ l) =
      ((e.0 ≡ f.index)
        × (place e.1 ≡ some f.match)
        × (f.start ≡ f.match.start)
        × (f.end ≡ f.match.end))
      ⊎ (NotBehind (f.start + 1) e × IsChosen f l)

  abbrev Finds : List (ℕ × Regex) → Best Match → Best Match → Type 0
  Finds l b r =
      (r ≡ b)
      ⊎ ((f : Found Match) × (r.best ≡ some f)
          × (r.first_match ≡ f.start)
          × IsChosen f l
          × (f.start < b.first_match))

  step-source :
      (i : ℕ) (s : Regex) (b : Best Match) (o : Option Match)
      → place s ≡ o
      → Finds ((i, s) ∷ []) b (take_match o i b)
  unfolding take_match
  step-source i s b none p = inl refl
  step-source i s b (some m) p = elim (Bool-cases (ltb m.start b.first_match)) [
    | inl lt ↦ rw lt (
        inr (
          record { index = i; start = m.start; end = m.end; match = m },
          refl,
          refl,
          inl (refl, p, refl, refl),
          ltb→lt m.start b.first_match lt,
        ))
    | inr ge ↦ rw ge (inl refl)
  ]

  Finds-trans :
      (e : ℕ × Regex) (l : List (ℕ × Regex)) (b c r : Best Match)
      → NotBehind c.first_match e
      → Finds (e ∷ []) b c
      → Finds l c r
      → Finds (e ∷ l) b r
  Finds-trans e l b c r low (inl p) (inl q) = inl (cc)
  Finds-trans e l b c r low (inl p) (inr (f, q, m, a, lt)) = inr (
    f,
    q,
    m,
    inr (λ n h. omega (arith, low n h), a),
    rw (ap (λ (x : Best Match). x.first_match) p) at lt,
  )
  Finds-trans e l b c r low (inr (f, q, m, inl a, lt)) (inl p) = inr (f, rw p q, rw p m, inl a, lt)
  Finds-trans e l b c r low (inr (f, q, m, inr a, lt)) (inl p) = elim a.1 [ ]
  Finds-trans e l b c r low (inr (f, q, m, a, lt)) (inr (f', q', m', a', lt')) =
      inr (f', q', m', inr (λ n h. omega (arith, low n h), a'), omega arith)

  loop-source : (l : List (ℕ × Regex)) (b : Best Match) → Finds l b (loop l b)
  unfolding search_loop
  loop-source [] b = inl refl
  loop-source ((i, s) ∷ l) b =
      let b' = take_match (place s) i b in
      Finds-trans (i, s) l b b' (loop l b') (step-lower i s b) (step-source i s b (place s) refl)
        (loop-source l b')

  -- The match is the leftmost one of the list, the first in the list of those, and lies in the
  -- buffer, at or behind the start of the search and before the end of the buffer.
  pub record IsLeftmost (l : List (ℕ × Regex)) (f : Found Match) : Type 0 where
    pub first : IsChosen f l
    pub leftmost : All (NotBehind f.start) l
    pub from : start ≤ f.start
    pub fits : (f.start < length buffer) × (f.start ≤ f.end) × (f.end ≤ length buffer)

  IsChosen-bounds :
      (f : Found Match) (l : List (ℕ × Regex))
      → IsChosen f l
      → (start ≤ f.start) × (f.start ≤ f.end) × (f.end ≤ length buffer)
  IsChosen-bounds f [] a = elim a [ ]
  IsChosen-bounds f (e ∷ l) (inl (i, p, s, t)) =
      omega (arith, search-bounds e.1 buffer start f.match p)
  IsChosen-bounds f (e ∷ l) (inr (n, a)) = IsChosen-bounds f l a

  abbrev unmatched : Best Match
  unmatched = record { first_match = length buffer; best = none }

  best_match-best :
      (r : Best Match) (f : Found Match)
      → best_match (length buffer) r ≡ some f
      → (r.best ≡ some f) × (r.first_match ≢ length buffer)
  unfolding best_match
  best_match-best r f h = ground arith

  found_first :
      (l : List (ℕ × Regex)) (r : Best Match) (f : Found Match)
      → r.best ≡ some f
      → r.first_match ≢ length buffer
      → Finds l unmatched r
      → IsChosen f l × (r.first_match ≡ f.start) × (f.start < length buffer)
  found_first l r f h ne (inl p) = absurd (ne (ap (λ (x : Best Match). x.first_match) p))
  found_first l r f h ne (inr (g, q, m, a, lt)) =
      let e : g ≡ f = ground arith in
      subst (λ x. IsChosen x l × (r.first_match ≡ x.start) × (x.start < length buffer)) e (a, m, lt)

  loop-IsLeftmost :
      (l : List (ℕ × Regex)) (f : Found Match)
      → best_match (length buffer) (loop l unmatched) ≡ some f
      → IsLeftmost l f
  loop-IsLeftmost l f h =
      let (b, ne) = best_match-best (loop l unmatched) f h in
      let (a, m, lt) = found_first l (loop l unmatched) f b ne (loop-source l unmatched) in
      let (from, order, fit) = IsChosen-bounds f l a in
      record {
        first = a;
        leftmost = subst (λ k. All (NotBehind k) l) m (loop-lower l unmatched);
        from = from;
        fits = (lt, order, fit);
      }

  none_first :
      (l : List (ℕ × Regex)) (r : Best Match)
      → best_match (length buffer) r ≡ none
      → Finds l unmatched r
      → r.first_match ≡ length buffer
  unfolding best_match
  none_first l r h (inl p) = ap (λ (x : Best Match). x.first_match) p
  none_first l r h (inr (g, q, m, a, lt)) = ground arith

  loop-none :
      (l : List (ℕ × Regex))
      → best_match (length buffer) (loop l unmatched) ≡ none
      → All (NotBehind (length buffer)) l
  loop-none l h =
      let m = none_first l (loop l unmatched) h (loop-source l unmatched) in
      subst (λ k. All (NotBehind k) l) m (loop-lower l unmatched)

-- A successful search returns the match of an entry whose match starts furthest to the left, the
-- first such entry of the list, and the match lies in the searched part of the buffer.
pub search_re-IsLeftmost :
    (searcher : Searcher Regex) (buffer : Bytes) (freshlen : ℕ) (window : Option ℕ)
    (f : Found Match)
    → search_re searcher buffer freshlen window ≡ some f
    → IsLeftmost buffer (search_start buffer window) searcher.searches f
unfolding search_re
search_re-IsLeftmost searcher buffer freshlen window f h =
    loop-IsLeftmost buffer (search_start buffer window) searcher.searches f h

-- A search that returns -1 means that no entry has a match that starts before the end of the buffer.
pub search_re-none :
    (searcher : Searcher Regex) (buffer : Bytes) (freshlen : ℕ) (window : Option ℕ)
    → search_re searcher buffer freshlen window ≡ none
    → All (NotBehind buffer (search_start buffer window) (length buffer)) searcher.searches
unfolding search_re
search_re-none searcher buffer freshlen window h =
    loop-none buffer (search_start buffer window) searcher.searches h
