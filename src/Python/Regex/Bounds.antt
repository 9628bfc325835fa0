-- ===== src/Python/Regex/Bounds.antt =====
-- A match lies in the text, at or behind the place where the search begins.
use custom_shell.Prelude.{
  ℕ, zero, suc, ◌+◌, ◌-◌, ◌≤◌, Bool, [], ◌∷◌, Bytes, Option, none, some, leb, ◌==◌, if◌then◌else◌,
  length, take, drop, ◌≡◌, refl, ap, arith, length-drop, Bool-cases, inl, inr, ◌⊎◌, leb→le,
}
use custom_shell.Python.Regex.{
  Regex, byte, empty, seq, alt, many, lazy, group, text_start, text_end, Cursor, Next, advance,
  rounds, rounds_lazy, run, Match, to_match, match_at, search_at, search,
}

-- A cursor further on in the same text.
abbrev Moves : Cursor → Cursor → Type 0
Moves c d = (d.pos + length d.rest ≡ c.pos + length c.rest) × (c.pos ≤ d.pos)

-- The match went on from a cursor behind `c`.
abbrev Via : Next → Cursor → Cursor → Type 0
Via next c r = (d : Cursor) × Moves c d × (next d ≡ some r)

-- Every way that a matcher can succeed goes through its continuation, further on.
abbrev Goes : (Next → Next) → Type 0
Goes m = (next : Next) (c r : Cursor) → m next c ≡ some r → Via next c r

split :
    {A : Type 0} (o other : Option A) (r : A)
    → elim o [ some d ↦ some d | none ↦ other ] ≡ some r
    → (o ≡ some r) ⊎ (other ≡ some r)
split none other r h = inr h
split (some d) other r h = inl h

guarded :
    (b : Bool) (o : Option Cursor) (r : Cursor) → (if b then none else o) ≡ some r → o ≡ some r
guarded b o r h = ground arith

Moves-trans : (c d r : Cursor) (next : Next) → Moves c d → Via next d r → Via next c r
Moves-trans c d r next m (e, n, h) = (e, omega arith, h)

advance-Goes :
    (p : ℕ → Bool) (s : Bytes) (next : Next) (c r : Cursor)
    → c.rest ≡ s
    → advance p next c s ≡ some r
    → Via next c r
unfolding advance
advance-Goes p [] next c r e h = cc
advance-Goes p (b ∷ s) next c r e h =
    (record c { rest = s; pos = suc c.pos }, omega (arith, ap length e), ground arith)

Via-self : (next : Next) (c r : Cursor) → next c ≡ some r → Via next c r
Via-self next c r h = (c, omega arith, h)

module _ (body : Next → Next) (goes : Goes body) where
  one_round :
      (inner next : Next) (c r : Cursor)
      → ((d : Cursor) → inner d ≡ some r → Via next d r)
      → body inner c ≡ some r
      → Via next c r
  one_round inner next c r ih h =
      let (d, m, e) = goes inner c r h in Moves-trans c d r next m (ih d e)

  rounds-Goes : (fuel : ℕ) → Goes (rounds body fuel)
  unfolding rounds
  rounds-Goes zero next c r h = Via-self next c r h
  rounds-Goes (suc fuel) next c r h = elim (split _ (next c) r h) [
    | inl e ↦
        one_round _ next c r (λ d k. rounds-Goes fuel next d r (guarded (d.pos == c.pos) _ r k)) e
    | inr e ↦ Via-self next c r e
  ]

  rounds_lazy-Goes : (fuel : ℕ) → Goes (rounds_lazy body fuel)
  unfolding rounds_lazy
  rounds_lazy-Goes zero next c r h = Via-self next c r h
  rounds_lazy-Goes (suc fuel) next c r h = elim (split (next c) _ r h) [
    | inl e ↦ Via-self next c r e
    | inr e ↦
        one_round _ next c r
          (λ d k. rounds_lazy-Goes fuel next d r (guarded (d.pos == c.pos) _ r k)) e
  ]

tested : (b : Bool) (o : Option Cursor) (r : Cursor) → (if b then o else none) ≡ some r → o ≡ some r
tested b o r h = ground arith

run-Goes : (x : Regex) → Goes (run x)
unfolding run
run-Goes (byte p) next c r h = advance-Goes p c.rest next c r refl h
run-Goes empty next c r h = Via-self next c r h
run-Goes (seq x y) next c r h =
    one_round (run x) (run-Goes x) (run y next) next c r (λ d k. run-Goes y next d r k) h
run-Goes (alt x y) next c r h = elim (split _ _ r h) [
  | inl e ↦ run-Goes x next c r e
  | inr e ↦ run-Goes y next c r e
]
run-Goes (many x) next c r h = rounds-Goes (run x) (run-Goes x) (length c.rest) next c r h
run-Goes (lazy x) next c r h = rounds_lazy-Goes (run x) (run-Goes x) (length c.rest) next c r h
run-Goes (group n x) next c r h =
    let (d, m, e) = run-Goes x _ c r h in
    (record d { groups = (n, take (d.pos - c.pos) c.rest) ∷ d.groups }, omega arith, e)
run-Goes text_start next c r h = Via-self next c r (tested (c.pos == 0) _ r h)
run-Goes text_end next c r h = Via-self next c r (tested _ _ r h)

-- A match of the rest `s` of a text, which begins at position `i`.
abbrev Inside : Bytes → ℕ → Match → Type 0
Inside s i m = (i ≤ m.start) × (m.start ≤ m.end) × (m.end ≤ i + length s)

to_match-some :
    (i : ℕ) (o : Option Cursor) (m : Match)
    → to_match i o ≡ some m
    → (c : Cursor) × (o ≡ some c) × (m.start ≡ i) × (m.end ≡ c.pos)
unfolding to_match
to_match-some i none m h = cc
to_match-some i (some c) m h = (c, refl, ground arith, ground arith)

match_at-Inside :
    (x : Regex) (s : Bytes) (i : ℕ) (m : Match) → match_at x s i ≡ some m → Inside s i m
unfolding match_at
match_at-Inside x s i m h =
    let (c, e, from, to) =
      to_match-some i (run x some (record { rest = s; pos = i; groups = [] })) m h in
    let (d, moved, same) = run-Goes x some (record { rest = s; pos = i; groups = [] }) c e in
    let at_end : d.pos ≡ c.pos = ground arith in omega arith

search_at-Inside :
    (x : Regex) (s : Bytes) (i : ℕ) (m : Match) → search_at x s i ≡ some m → Inside s i m
unfolding search_at
search_at-Inside x [] i m h = match_at-Inside x [] i m h
search_at-Inside x (b ∷ s) i m h = elim (split (match_at x (b ∷ s) i) _ m h) [
  | inl e ↦ match_at-Inside x (b ∷ s) i m e
  | inr e ↦ omega (arith, search_at-Inside x s (suc i) m e)
]

-- What `pattern.search(s, start)` returns lies in `s`, not before `start`.
pub search-bounds :
    (x : Regex) (s : Bytes) (start : ℕ) (m : Match)
    → search x s start ≡ some m
    → (start ≤ m.start) × (m.start ≤ m.end) × (m.end ≤ length s)
unfolding search
search-bounds x s start m h = elim (Bool-cases (leb start (length s))) [
  | inl le ↦ omega (
    arith,
    leb→le start (length s) le,
    length-drop start s,
    search_at-Inside x (drop start s) start m (rw le at h),
  )
  | inr gt ↦ cc (rw gt at h)
]
