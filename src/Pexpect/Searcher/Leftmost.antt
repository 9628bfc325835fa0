-- ===== src/Pexpect/Searcher/Leftmost.antt =====
-- What `searcher_string.search` finds: the leftmost text, and the first in the list of those.
use custom_shell.Prelude.{
  ℕ, suc, ◌+◌, ◌≤◌, ◌<◌, true, false, List, [], ◌∷◌, Bytes, Option, none, some, length, ◌≡◌, ◌≢◌,
  ◌⊎◌, inl, inr, arith, All, ap, subst, sym, ◌∙◌, Bool-cases,
}
use custom_shell.Python.Text.{find, find_back, occurs}
use custom_shell.Python.Text.Places.{IsFirst, find-IsFirst, find-le, occurs-end}
use custom_shell.Pexpect.Searcher.{Searcher, Found, Best, best_match, search_string}
use custom_shell.Pexpect.Searcher.Source.{
  begin, place, loop, loop-lower, Chosen, Finds, loop-source,
}

module _ (buffer : Bytes) (freshlen : ℕ) (window : Option ℕ) where
  -- No text of the entry stands in its part of the buffer from the place where its search begins
  -- up to `k`.
  abbrev pub FreeBelow : ℕ → ℕ × Bytes → Type 0
  FreeBelow k e =
      (n : ℕ) → begin buffer freshlen window e.1 ≤ n → n < k → occurs buffer e.1 n ≡ false

  -- `f` is an entry, and the ones before it do not stand at its place or to the left.
  abbrev pub IsChosen : Found Bytes → List (ℕ × Bytes) → Type 0
  IsChosen f [] = ⊥
  IsChosen f (e ∷ l) =
      ((e.0 ≡ f.index) × (e.1 ≡ f.match)) ⊎ (FreeBelow (suc f.start) e × IsChosen f l)

  -- `f` is where the leftmost text of the list stands in the searched part of the buffer.
  pub record IsLeftmost (l : List (ℕ × Bytes)) (f : Found Bytes) : Type 0 where
    pub here : occurs buffer f.match f.start ≡ true
    pub from : begin buffer freshlen window f.match ≤ f.start
    pub end : f.end ≡ f.start + length f.match
    pub fits : (f.start < length buffer) × (f.end ≤ length buffer)
    pub leftmost : All (FreeBelow f.start) l
    pub first : IsChosen f l

  FreeBelow-lower :
      (k : ℕ) (e : ℕ × Bytes)
      → k ≤ suc (length buffer)
      → ((n : ℕ) → place buffer freshlen window e.1 ≡ some n → k ≤ n)
      → FreeBelow k e
  unfolding find_back find
  FreeBelow-lower k e fit low n a b = elim (Bool-cases (occurs buffer e.1 n)) [
    | inl hit ↦
        absurd
          (too_low (find-le buffer e.1 (begin buffer freshlen window e.1) n a (omega arith) hit))
    | inr miss ↦ miss
  ]
    where
      too_low : ¬ ((m : ℕ) × (place buffer freshlen window e.1 ≡ some m) × (m ≤ n))
      too_low (m, p, le) = omega (arith, low m p)

  All-FreeBelow :
      (k : ℕ) (l : List (ℕ × Bytes))
      → k ≤ suc (length buffer)
      → All (λ e. (n : ℕ) → place buffer freshlen window e.1 ≡ some n → k ≤ n) l
      → All (FreeBelow k) l
  All-FreeBelow k [] fit low = tt
  All-FreeBelow k (e ∷ l) fit low = (FreeBelow-lower k e fit low.0, All-FreeBelow k l fit low.1)

  Chosen-IsChosen :
      (f : Found Bytes) (l : List (ℕ × Bytes))
      → f.start < length buffer
      → Chosen buffer freshlen window f l
      → IsChosen f l
  Chosen-IsChosen f (e ∷ l) lt (inl a) = inl (a.0, a.1)
  Chosen-IsChosen f (e ∷ l) lt (inr a) =
      inr (FreeBelow-lower (suc f.start) e (omega arith) a.0, Chosen-IsChosen f l lt a.1)
  Chosen-IsChosen f [] lt a = elim a [ ]

  -- The entry that was chosen is found at the place and has the end that the result names.
  Chosen-entry :
      (f : Found Bytes) (l : List (ℕ × Bytes))
      → Chosen buffer freshlen window f l
      → (place buffer freshlen window f.match ≡ some f.start) × (f.end ≡ f.start + length f.match)
  Chosen-entry f [] a = elim a [ ]
  Chosen-entry f (e ∷ l) (inl a) = (ap (place buffer freshlen window) (sym a.1) ∙ a.2, a.3)
  Chosen-entry f (e ∷ l) (inr a) = Chosen-entry f l a.1

  abbrev unmatched : Best Bytes
  unmatched = record { first_match = length buffer; best = none }

  best_match-best :
      (r : Best Bytes) (f : Found Bytes)
      → best_match (length buffer) r ≡ some f
      → (r.best ≡ some f) × (r.first_match ≢ length buffer)
  unfolding best_match
  best_match-best r f h = ground arith

  found_first :
      (l : List (ℕ × Bytes)) (r : Best Bytes) (f : Found Bytes)
      → r.best ≡ some f
      → r.first_match ≢ length buffer
      → Finds buffer freshlen window l unmatched r
      → Chosen buffer freshlen window f l × (r.first_match ≡ f.start) × (f.start < length buffer)
  found_first l r f h ne (inl p) = absurd (ne (ap (λ (x : Best Bytes). x.first_match) p))
  found_first l r f h ne (inr (g, q, m, a, lt)) =
      let e : g ≡ f = ground arith in
      subst
        (λ x.
          Chosen buffer freshlen window x l × (r.first_match ≡ x.start) × (x.start < length buffer))
        e (a, m, lt)

  loop-IsLeftmost :
      (l : List (ℕ × Bytes)) (f : Found Bytes)
      → best_match (length buffer) (loop buffer freshlen window l unmatched) ≡ some f
      → IsLeftmost l f
  unfolding find_back find
  loop-IsLeftmost l f h =
      let (b, ne) = best_match-best (loop buffer freshlen window l unmatched) f h in
      let (a, m, lt) =
        found_first l (loop buffer freshlen window l unmatched) f b ne
          (loop-source buffer freshlen window l unmatched) in
      let (p, e) = Chosen-entry f l a in
      let first : IsFirst buffer f.match (begin buffer freshlen window f.match) f.start =
        find-IsFirst buffer f.match _ _ p in
      record {
        here = first.here;
        from = first.from;
        end = e;
        fits = (lt, rw e (occurs-end buffer f.match f.start first.within first.here));
        leftmost = All-FreeBelow f.start l (omega arith) (
            subst (λ k. All (λ e. (n : ℕ) → place buffer freshlen window e.1 ≡ some n → k ≤ n) l) m
              (loop-lower buffer freshlen window l unmatched));
        first = Chosen-IsChosen f l lt a;
      }

  -- A loop that gives no result has left its first match at the end of the buffer.
  none_first :
      (l : List (ℕ × Bytes)) (r : Best Bytes)
      → best_match (length buffer) r ≡ none
      → Finds buffer freshlen window l unmatched r
      → r.first_match ≡ length buffer
  unfolding best_match
  none_first l r h (inl p) = ap (λ (x : Best Bytes). x.first_match) p
  none_first l r h (inr (g, q, m, a, lt)) = ground arith

  loop-none :
      (l : List (ℕ × Bytes))
      → best_match (length buffer) (loop buffer freshlen window l unmatched) ≡ none
      → All (FreeBelow (length buffer)) l
  loop-none l h =
      let m =
        none_first l (loop buffer freshlen window l unmatched) h
          (loop-source buffer freshlen window l unmatched) in
      All-FreeBelow (length buffer) l (omega arith) (
        subst (λ k. All (λ e. (n : ℕ) → place buffer freshlen window e.1 ≡ some n → k ≤ n) l) m
          (loop-lower buffer freshlen window l unmatched))

-- A successful search returns the place of a text of the list: it stands there, it ends inside the
-- buffer, no text of the list stands further to the left in its searched part, and the texts before
-- it in the list do not stand at that place either.
pub search_string-IsLeftmost :
    (searcher : Searcher Bytes) (buffer : Bytes) (freshlen : ℕ) (window : Option ℕ)
    (f : Found Bytes)
    → search_string searcher buffer freshlen window ≡ some f
    → IsLeftmost buffer freshlen window searcher.searches f
unfolding search_string
search_string-IsLeftmost searcher buffer freshlen window f h =
    loop-IsLeftmost buffer freshlen window searcher.searches f h

-- A search that returns -1 has missed nothing: no text of the list stands in its searched part,
-- before the end of the buffer.
pub search_string-none :
    (searcher : Searcher Bytes) (buffer : Bytes) (freshlen : ℕ) (window : Option ℕ)
    → search_string searcher buffer freshlen window ≡ none
    → All (FreeBelow buffer freshlen window (length buffer)) searcher.searches
unfolding search_string
search_string-none searcher buffer freshlen window h =
    loop-none buffer freshlen window searcher.searches h
