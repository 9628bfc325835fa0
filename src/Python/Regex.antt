-- ===== src/Python/Regex.antt =====
-- The part of Python's `re` that the program uses: a backtracking matcher with groups.
pub mod Bounds
pub mod Literal
pub mod Language
pub mod Classes
use custom_shell.Prelude.{
  ℕ, zero, suc, ◌+◌, ◌-◌, ◌≤◌, Bool, true, false, List, [], ◌∷◌, Bytes, Option, none, some, leb,
  ◌==◌, if◌then◌else◌, length, take, drop, ◌≡◌, refl, arith, length-drop,
}

pub data Regex : Type 0 where
  byte : (ℕ → Bool) → Regex
  empty : Regex
  seq : Regex → Regex → Regex
  alt : Regex → Regex → Regex
  many : Regex → Regex
  lazy : Regex → Regex
  group : ℕ → Regex → Regex
  text_start : Regex
  text_end : Regex

-- `r+` and `r+?`.
abbrev pub some_of : Regex → Regex
some_of r = seq r (many r)

abbrev pub some_lazy : Regex → Regex
some_lazy r = seq r (lazy r)

-- A literal text.
abbrev pub literal : Bytes → Regex
literal [] = empty
literal (c ∷ s) = seq (byte (λ b. b == c)) (literal s)

-- `.{n}` with DOTALL.
abbrev pub any_bytes : ℕ → Regex
any_bytes zero = empty
any_bytes (suc n) = seq (byte (λ c. true)) (any_bytes n)

-- Where the matcher stands, and the groups that it has closed, the last one first.
pub record Cursor : Type 0 where
  pub rest : Bytes
  pub pos : ℕ
  pub groups : List (ℕ × Bytes)

-- What is left to match behind a part of the pattern.
abbrev Next : Type 0
Next = Cursor → Option Cursor

advance : (ℕ → Bool) → Next → Cursor → Bytes → Option Cursor
advance p next c [] = none
advance p next c (b ∷ rest) = if p b then next (record c { rest = rest; pos = suc c.pos }) else none

or_else : Option Cursor → Option Cursor → Option Cursor
or_else none o = o
or_else (some c) o = some c

-- `r*` tries another round first; a round that matches nothing ends it.
rounds : (Next → Next) → ℕ → Next → Next
rounds body zero next c = next c
rounds body (suc fuel) next c =
    elim (body (λ d. if d.pos == c.pos then none else rounds body fuel next d) c) [
      | some r ↦ some r
      | none ↦ next c
    ]

-- `r*?` tries to stop first.
rounds_lazy : (Next → Next) → ℕ → Next → Next
rounds_lazy body zero next c = next c
rounds_lazy body (suc fuel) next c = elim (next c) [
  | some r ↦ some r
  | none ↦ body (λ d. if d.pos == c.pos then none else rounds_lazy body fuel next d) c
]

-- `$` without a flag: the end of the text, or before a newline that ends it.
pub is_end : Bytes → Bool
is_end [] = true
is_end (c ∷ []) = c == 10
is_end (c ∷ d ∷ s) = false

run : Regex → Next → Next
unfolding advance or_else rounds rounds_lazy is_end
run (byte p) next c = advance p next c c.rest
run empty next c = next c
run (seq r q) next c = run r (run q next) c
run (alt r q) next c = elim (run r next c) [ some d ↦ some d | none ↦ run q next c ]
run (many r) next c = rounds (run r) (length c.rest) next c
run (lazy r) next c = rounds_lazy (run r) (length c.rest) next c
run (group n r) next c =
    run r (λ d. next (record d { groups = (n, take (d.pos - c.pos) c.rest) ∷ d.groups })) c
run text_start next c = if c.pos == 0 then next c else none
run text_end next c = if is_end c.rest then next c else none

pub record Match : Type 0 where
  pub start : ℕ
  pub end : ℕ
  pub groups : List (ℕ × Bytes)

-- `match.group(n)` of a group that has matched; its last value stands first.
unfoldable pub group_value : ℕ → List (ℕ × Bytes) → Bytes
group_value n [] = []
group_value n ((k, s) ∷ groups) = if k == n then s else group_value n groups

-- `re.match` at a position, and the scan of `re.search` over what is left of the text.
to_match : ℕ → Option Cursor → Option Match
to_match i none = none
to_match i (some c) = some (record { start = i; end = c.pos; groups = c.groups })

match_at : Regex → Bytes → ℕ → Option Match
unfolding run to_match
match_at r s i = to_match i (run r some (record { rest = s; pos = i; groups = [] }))

search_at : Regex → Bytes → ℕ → Option Match
search_at r [] i = match_at r [] i
search_at r (b ∷ s) i = elim (match_at r (b ∷ s) i) [
  | some m ↦ some m
  | none ↦ search_at r s (suc i)
]

-- `pattern.match(s)` and `pattern.search(s, start)`.
unfoldable pub match : Regex → Bytes → Option Match
unfolding match_at
match r s = match_at r s 0

unfoldable pub search : Regex → Bytes → ℕ → Option Match
unfolding search_at match_at
search r s start = if leb start (length s) then search_at r (drop start s) start else none
