-- ===== src/Pexpect/Searcher/Source.antt =====
-- The best match of the loop of `searcher_string.search` comes from an entry of the list.
use custom_shell.Prelude.{
  ℕ, ◌+◌, ◌≤◌, ◌<◌, List, [], ◌∷◌, Bytes, Option, none, some, ltb, length, ◌≡◌, ◌⊎◌, inl, inr, refl,
  arith, All, ap, ltb→lt, Bool-cases,
}
use custom_shell.Python.Text.{find_back, back_start}
use custom_shell.Pexpect.Searcher.{Found, Best, take_better, search_back, search_loop}

module _ (buffer : Bytes) (freshlen : ℕ) (window : Option ℕ) where
  -- Where the search for one text begins, and what it gives.
  abbrev pub begin : Bytes → ℕ
  begin s = back_start buffer (search_back freshlen window s)

  abbrev pub place : Bytes → Option ℕ
  place s = find_back buffer s (search_back freshlen window s)

  abbrev pub loop : List (ℕ × Bytes) → Best Bytes → Best Bytes
  loop l b = search_loop l buffer freshlen window b

  step-le :
      (i : ℕ) (s : Bytes) (b : Best Bytes)
      → (take_better (place s) i s b).first_match ≤ b.first_match
  unfolding take_better
  step-le i s b = ground arith

  -- The first match only moves to the left, down to the leftmost place.
  loop-le : (l : List (ℕ × Bytes)) (b : Best Bytes) → (loop l b).first_match ≤ b.first_match
  unfolding search_loop
  loop-le [] b = omega arith
  loop-le ((i, s) ∷ l) b = omega (arith, loop-le l (take_better (place s) i s b), step-le i s b)

  step-lower :
      (i : ℕ) (s : Bytes) (b : Best Bytes) (n : ℕ)
      → place s ≡ some n
      → (take_better (place s) i s b).first_match ≤ n
  unfolding take_better
  step-lower i s b n h = ground arith

  pub loop-lower :
      (l : List (ℕ × Bytes)) (b : Best Bytes)
      → All (λ e. (n : ℕ) → place e.1 ≡ some n → (loop l b).first_match ≤ n) l
  unfolding search_loop
  loop-lower [] b = tt
  loop-lower ((i, s) ∷ l) b =
      let b' = take_better (place s) i s b in
      (λ n h. omega (arith, loop-le l b', step-lower i s b n h), loop-lower l b')

  -- The entry that a find comes from.
  abbrev pub IsEntry : Found Bytes → ℕ × Bytes → Type 0
  IsEntry f e =
      (e.0 ≡ f.index)
      × (e.1 ≡ f.match)
      × (place e.1 ≡ some f.start)
      × (f.end ≡ f.start + length f.match)

  -- The entries before it are found further to the right, or nowhere.
  abbrev pub Chosen : Found Bytes → List (ℕ × Bytes) → Type 0
  Chosen f [] = ⊥
  Chosen f (e ∷ l) = IsEntry f e ⊎ (((n : ℕ) → place e.1 ≡ some n → f.start < n) × Chosen f l)

  abbrev pub Finds : List (ℕ × Bytes) → Best Bytes → Best Bytes → Type 0
  Finds l b r =
      (r ≡ b)
      ⊎ ((f : Found Bytes) × (r.best ≡ some f)
          × (r.first_match ≡ f.start)
          × Chosen f l
          × (f.start < b.first_match))

  step-source :
      (i : ℕ) (s : Bytes) (b : Best Bytes) (o : Option ℕ)
      → place s ≡ o
      → Finds ((i, s) ∷ []) b (take_better o i s b)
  unfolding take_better
  step-source i s b none p = inl refl
  step-source i s b (some n) p = elim (Bool-cases (ltb n b.first_match)) [
    | inl lt ↦ rw lt (
        inr (
          record { index = i; start = n; end = n + length s; match = s },
          refl,
          refl,
          inl (refl, refl, p, refl),
          ltb→lt n b.first_match lt,
        ))
    | inr ge ↦ rw ge (inl refl)
  ]

  Finds-trans :
      (e : ℕ × Bytes) (l : List (ℕ × Bytes)) (b c r : Best Bytes)
      → ((n : ℕ) → place e.1 ≡ some n → c.first_match ≤ n)
      → Finds (e ∷ []) b c
      → Finds l c r
      → Finds (e ∷ l) b r
  Finds-trans e l b c r low (inl p) (inl q) = inl (cc)
  Finds-trans e l b c r low (inl p) (inr (f, q, m, a, lt)) = inr (
    f,
    q,
    m,
    inr (λ n h. omega (arith, low n h), a),
    rw (ap (λ (x : Best Bytes). x.first_match) p) at lt,
  )
  Finds-trans e l b c r low (inr (f, q, m, inl a, lt)) (inl p) = inr (f, rw p q, rw p m, inl a, lt)
  Finds-trans e l b c r low (inr (f, q, m, inr a, lt)) (inl p) = elim a.1 [ ]
  Finds-trans e l b c r low (inr (f, q, m, a, lt)) (inr (f', q', m', a', lt')) =
      inr (f', q', m', inr (λ n h. omega (arith, low n h), a'), omega arith)

  pub loop-source : (l : List (ℕ × Bytes)) (b : Best Bytes) → Finds l b (loop l b)
  unfolding search_loop
  loop-source [] b = inl refl
  loop-source ((i, s) ∷ l) b =
      let b' = take_better (place s) i s b in
      Finds-trans (i, s) l b b' (loop l b') (λ n h. step-lower i s b n h)
        (step-source i s b (place s) refl) (loop-source l b')
