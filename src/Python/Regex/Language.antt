-- ===== src/Python/Regex/Language.antt =====
-- What an expression matches: the matcher follows the relation between cursors that the expression
-- denotes.
use custom_shell.Prelude.{
  ℕ, zero, suc, ◌+◌, ◌-◌, Bool, true, false, [], ◌∷◌, Bytes, Option, none, some, ◌==◌,
  if◌then◌else◌, length, take, ◌≡◌, refl, ap, arith, inl, inr, ◌⊎◌, sym, ◌∙◌, drop, subst, le→leb,
}
use custom_shell.Python.Regex.{
  Regex, byte, empty, seq, alt, many, lazy, group, text_start, text_end, Cursor, Next, advance,
  rounds, rounds_lazy, is_end, run, Match, to_match, match_at, search_at, search,
}

-- One round after another.
pub data Rounds (R : Cursor → Cursor → Type 0) : Cursor → Cursor → Type 0 where
  no_round : (c : Cursor) → Rounds R c c
  one_more : (c d e : Cursor) → R c d → Rounds R d e → Rounds R c e

-- From the one cursor to the other the expression matches.
abbrev pub Denotes : Regex → Cursor → Cursor → Type 0
Denotes (byte p) c d =
    (b : ℕ) × (p b ≡ true) × (c.rest ≡ b ∷ d.rest) × (d.pos ≡ suc c.pos) × (d.groups ≡ c.groups)
Denotes empty c d = d ≡ c
Denotes (seq x y) c d = (e : Cursor) × Denotes x c e × Denotes y e d
Denotes (alt x y) c d = Denotes x c d ⊎ Denotes y c d
Denotes (many x) c d = Rounds (Denotes x) c d
Denotes (lazy x) c d = Rounds (Denotes x) c d
Denotes (group n x) c d =
    (e : Cursor) × Denotes x c e
    × (d ≡ record e { groups = (n, take (e.pos - c.pos) c.rest) ∷ e.groups })
Denotes text_start c d = (d ≡ c) × (c.pos ≡ 0)
Denotes text_end c d = (d ≡ c) × (is_end c.rest ≡ true)

-- A match of a part went on from a cursor that `R` reaches.
abbrev Through : (Cursor → Cursor → Type 0) → Next → Cursor → Cursor → Type 0
Through R next c r = (d : Cursor) × R c d × (next d ≡ some r)

abbrev Follows : (Cursor → Cursor → Type 0) → (Next → Next) → Type 0
Follows R m = (next : Next) (c r : Cursor) → m next c ≡ some r → Through R next c r

split :
    {A : Type 0} (o other : Option A) (r : A)
    → elim o [ some d ↦ some d | none ↦ other ] ≡ some r
    → (o ≡ some r) ⊎ (other ≡ some r)
split none other r h = inr h
split (some d) other r h = inl h

guarded :
    (b : Bool) (o : Option Cursor) (r : Cursor) → (if b then none else o) ≡ some r → o ≡ some r
guarded b o r h = ground arith

tested :
    (b : Bool) (o : Option Cursor) (r : Cursor)
    → (if b then o else none) ≡ some r
    → (b ≡ true) × (o ≡ some r)
tested true o r h = (refl, h)
tested false o r h = cc

advance-Follows :
    (p : ℕ → Bool) (s : Bytes) (next : Next) (c r : Cursor)
    → c.rest ≡ s
    → advance p next c s ≡ some r
    → Through (Denotes (byte p)) next c r
unfolding advance
advance-Follows p [] next c r e h = cc
advance-Follows p (b ∷ s) next c r e h =
    let (hit, k) = tested (p b) _ r h in
    (record c { rest = s; pos = suc c.pos }, (b, hit, e, refl, refl), k)

module _ (R : Cursor → Cursor → Type 0) (body : Next → Next) (follows : Follows R body) where
  one_round :
      (inner next : Next) (c r : Cursor)
      → ((d : Cursor) → inner d ≡ some r → Through (Rounds R) next d r)
      → body inner c ≡ some r
      → Through (Rounds R) next c r
  one_round inner next c r ih h =
      let (d, x, e) = follows inner c r h in let (f, y, k) = ih d e in (f, one_more c d f x y, k)

  rounds-Follows : (fuel : ℕ) → Follows (Rounds R) (rounds body fuel)
  unfolding rounds
  rounds-Follows zero next c r h = (c, no_round c, h)
  rounds-Follows (suc fuel) next c r h = elim (split _ (next c) r h) [
    | inl e ↦
        one_round _ next c r (λ d k. rounds-Follows fuel next d r (guarded (d.pos == c.pos) _ r k))
          e
    | inr e ↦ (c, no_round c, e)
  ]

  rounds_lazy-Follows : (fuel : ℕ) → Follows (Rounds R) (rounds_lazy body fuel)
  unfolding rounds_lazy
  rounds_lazy-Follows zero next c r h = (c, no_round c, h)
  rounds_lazy-Follows (suc fuel) next c r h = elim (split (next c) _ r h) [
    | inl e ↦ (c, no_round c, e)
    | inr e ↦
        one_round _ next c r
          (λ d k. rounds_lazy-Follows fuel next d r (guarded (d.pos == c.pos) _ r k)) e
  ]

-- The matcher succeeds only along the relation of the expression.
run-Follows : (x : Regex) → Follows (Denotes x) (run x)
unfolding run
run-Follows (byte p) next c r h = advance-Follows p c.rest next c r refl h
run-Follows empty next c r h = (c, refl, h)
run-Follows (seq x y) next c r h =
    let (d, p, e) = run-Follows x (run y next) c r h in
    let (f, q, k) = run-Follows y next d r e in (f, (d, p, q), k)
run-Follows (alt x y) next c r h = elim (split _ _ r h) [
  | inl e ↦ let (d, p, k) = run-Follows x next c r e in (d, inl p, k)
  | inr e ↦ let (d, p, k) = run-Follows y next c r e in (d, inr p, k)
]
run-Follows (many x) next c r h =
    rounds-Follows (Denotes x) (run x) (run-Follows x) (length c.rest) next c r h
run-Follows (lazy x) next c r h =
    rounds_lazy-Follows (Denotes x) (run x) (run-Follows x) (length c.rest) next c r h
run-Follows (group n x) next c r h =
    let (d, p, k) = run-Follows x _ c r h in
    (record d { groups = (n, take (d.pos - c.pos) c.rest) ∷ d.groups }, (d, p, refl), k)
run-Follows text_start next c r h =
    let (b, k) = tested (c.pos == 0) _ r h in (c, (refl, ground arith), k)
run-Follows text_end next c r h = let (b, k) = tested _ _ r h in (c, (refl, b), k)

-- The match `m` of the rest `s` of a text, which begins at position `i`.
pub record Matches (x : Regex) (s : Bytes) (i : ℕ) (m : Match) : Type 0 where
  pub skipped : ℕ
  pub from : m.start ≡ i + skipped
  pub last : Cursor
  pub denotes : Denotes x (record { rest = drop skipped s; pos = m.start; groups = [] }) last
  pub to : m.end ≡ last.pos
  pub groups : m.groups ≡ last.groups

to_match-parts :
    (i : ℕ) (o : Option Cursor) (m : Match)
    → to_match i o ≡ some m
    → (c : Cursor) × (o ≡ some c) × (m.start ≡ i) × (m.end ≡ c.pos) × (m.groups ≡ c.groups)
unfolding to_match
to_match-parts i none m h = cc
to_match-parts i (some c) m h = (
  c,
  refl,
  ap (λ o. elim o [ none ↦ 0 | some x ↦ x.start ]) (sym h),
  ap (λ o. elim o [ none ↦ 0 | some x ↦ x.end ]) (sym h),
  ap (λ o. elim o [ none ↦ [] | some x ↦ x.groups ]) (sym h),
)

match_at-Matches :
    (x : Regex) (s : Bytes) (i : ℕ) (m : Match) → match_at x s i ≡ some m → Matches x s i m
unfolding match_at
match_at-Matches x s i m h =
    let (c, e, from, to, groups) = to_match-parts i _ m h in
    let (d, p, k) = run-Follows x some (record { rest = s; pos = i; groups = [] }) c e in
    let same : d ≡ c = ap (λ o. elim o [ none ↦ d | some y ↦ y ]) k in
    record {
      skipped = 0;
      from = omega arith;
      last = d;
      denotes = subst (λ j. Denotes x (record { rest = s; pos = j; groups = [] }) d) (sym from) p;
      to = to ∙ ap (λ (y : Cursor). y.pos) (sym same);
      groups = groups ∙ ap (λ (y : Cursor). y.groups) (sym same);
    }

later :
    (x : Regex) (b : ℕ) (s : Bytes) (i : ℕ) (m : Match)
    → Matches x s (suc i) m
    → Matches x (b ∷ s) i m
later x b s i m h = record {
  skipped = suc h.skipped;
  from = omega (arith, h.from);
  last = h.last;
  denotes = h.denotes;
  to = h.to;
  groups = h.groups;
}

search_at-Matches :
    (x : Regex) (s : Bytes) (i : ℕ) (m : Match) → search_at x s i ≡ some m → Matches x s i m
unfolding search_at
search_at-Matches x [] i m h = match_at-Matches x [] i m h
search_at-Matches x (b ∷ s) i m h = elim (split (match_at x (b ∷ s) i) _ m h) [
  | inl e ↦ match_at-Matches x (b ∷ s) i m e
  | inr e ↦ later x b s i m (search_at-Matches x s (suc i) m e)
]

-- What `pattern.search(s)` finds is matched by the expression.
pub search-Matches : (x : Regex) (s : Bytes) (m : Match) → search x s 0 ≡ some m → Matches x s 0 m
unfolding search
search-Matches x s m h = search_at-Matches x s 0 m (rw (le→leb 0 (length s) (omega arith)) at h)
