-- ===== src/Pexpect/Streams/Lines.antt =====
-- What `readline` and `read` return.
use custom_shell.Prelude.{
  ℕ, zero, suc, ◌+◌, ◌≤◌, ◌<◌, [], ◌∷◌, ◌++◌, append_assoc, append-nil, Bytes, Option, none, some,
  true, false, length, ◌≡◌, ◌≢◌, ◌⊎◌, inl, inr, refl, sym, ◌∙◌, ap, subst, arith, drop, drop-append,
  Bool-cases,
}
use custom_shell.Prelude.Int.{ℤ, pos, negsuc}
use custom_shell.Python.Exec.{Exn, Outcome, pure, gets, ◌>>=◌}
use custom_shell.Python.Exec.Triple.{Triple, Post, Triple-bind}
use custom_shell.Python.Regex.{Regex, Match, literal}
use custom_shell.Python.Regex.Literal.{to_literal, search-literal}
use custom_shell.Python.Text.{starts_with, occurs}
use custom_shell.Python.Text.Places.{starts_with-whole, find-le, find-IsFirst, occurs-end}
use custom_shell.Pexpect.Machine.{After, matched, Spawn, Machine, M, self}
use custom_shell.Pexpect.Expect.{window_of}
use custom_shell.Pexpect.Expect.Received.{Got}
use custom_shell.Pexpect.Patterns.{several, plain, compiled, eof_type, expect}
use custom_shell.Pexpect.Streams.{
  before_text, after_text, minus_one, line_end, line_result, readline,
}
use custom_shell.Pexpect.Streams.Sought.{
  IsSought, IsUnsought, Sought, FoundOne, FoundNone, pair-Found,
}

-- `line` ends with the first end of a line that is in the text.
pub record IsLine (incoming line : Bytes) : Type 0 where
  pub front : Bytes
  pub ends : line ≡ front ++ line_end
  pub first : (i : ℕ) → i < length front → occurs incoming line_end i ≡ false

-- There is no end of a line in the text.
abbrev pub IsUnended : Bytes → Type 0
IsUnended incoming = (i : ℕ) → i ≤ length incoming → occurs incoming line_end i ≡ false

-- What `readline` returns: the next line, with its end, or all that there is at EOF.
abbrev pub IsRead : Machine → Option Bytes → Machine → Type 0
IsRead m none n = ⊥
IsRead m (some line) n =
    (got : Bytes) × Got m.world got n
    × (m.self.buffer ++ got ≡ line ++ n.self.buffer)
    × (IsLine (m.self.buffer ++ got) line ⊎ ((n.self.buffer ≡ []) × IsUnended line))

module _ (r : Regex) (timeout : Option ℤ) (m : Machine) where
  pub text-Found :
      Triple
        (λ n. n ≡ m)
        (expect (several (plain r ∷ eof_type ∷ [])) timeout (window_of none))
        (FoundOne r m)
        (FoundNone r m)
  unfolding expect
  text-Found = pair-Found r timeout m

  pub compiled-Found :
      Triple
        (λ n. n ≡ m)
        (expect (several (compiled r ∷ eof_type ∷ [])) timeout (window_of none))
        (FoundOne r m)
        (FoundNone r m)
  unfolding expect
  compiled-Found = pair-Found r timeout m

pub to_literal-some :
    (sub : Bytes) (o : Option ℕ) (m : Match)
    → to_literal sub o ≡ some m
    → (o ≡ some m.start) × (m.end ≡ m.start + length sub)
to_literal-some sub none m h = cc
to_literal-some sub (some i) m h = let e : i ≡ m.start = ground arith in (ap some e, ground arith)

module _ (incoming : Bytes) (s : Spawn) where
  sought-IsLine :
      (h : IsSought (literal line_end) incoming s)
      → (h.middle ≡ line_end) × IsLine incoming (h.front ++ line_end)
  sought-IsLine h =
      let (e, k) =
        to_literal-some line_end _ h.found (sym (search-literal line_end incoming 0) ∙ h.search) in
      let f = find-IsFirst incoming line_end 0 h.found.start e in
      let two : length h.middle ≡ length line_end = omega (arith, h.start, h.end, k) in
      (
        starts_with-whole line_end h.middle s.buffer two (
            subst (λ t. starts_with line_end t ≡ true)
              (ap (λ i. drop i incoming) (sym h.start)
                ∙ ap (drop (length h.front)) (h.whole ∙ append_assoc h.front h.middle s.buffer)
                ∙ drop-append h.front (h.middle ++ s.buffer))
              f.here),
        record {
          front = h.front;
          ends = refl;
          first = λ i l. f.before i (omega arith) (omega (arith, h.start));
        },
      )

  unsought-IsUnended : IsUnsought (literal line_end) incoming s → IsUnended incoming
  unsought-IsUnended h i l = elim (Bool-cases (occurs incoming line_end i)) [
    | inl hit ↦
        let (k, e, le) = find-le incoming line_end 0 i (omega arith) l hit in
        let far =
          h.missed (record { start = k; end = k + 2; groups = [] })
            (search-literal line_end incoming 0 ∙ ap (to_literal line_end) e) in
        absurd (omega (arith, far, le, occurs-end incoming line_end i l hit))
    | inr miss ↦ miss
  ]

-- `self.before` and `self.after` where they hold a text.
module _ (n : Machine) (f : Bytes → M (Option Bytes)) where
  pub before_text-some :
      (o : Option Bytes) (s : Bytes) → o ≡ some s → (before_text o >>= f) n ≡ f s n
  unfolding before_text ◌>>=◌ pure
  before_text-some none s h = cc
  before_text-some (some t) s h =
      ap (λ (o : Option Bytes). elim o [ none ↦ f t n | some u ↦ f u n ]) h

  pub after_text-matched : (a : After) (s : Bytes) → a ≡ matched s → (after_text a >>= f) n ≡ f s n
  unfolding after_text ◌>>=◌ pure
  after_text-matched (matched t) s h =
      ap (λ (a : After). elim a [ matched u ↦ f u n | _ ↦ f t n ]) h
  after_text-matched After.no_text s h = cc
  after_text-matched After.eof_class s h = cc
  after_text-matched After.timeout_class s h = cc

module _ (Q : Option Bytes → Machine → Type 0) (E : Option Exn → Machine → Type 0)
    {r q : Outcome (Option Bytes) × Machine} where
  pub Post-run : r ≡ q → Post Q E q.0 q.1 → Post Q E r.0 r.1
  Post-run e h = subst (λ p. Post Q E p.0 p.1) (sym e) h

module _ (m : Machine) where
  abbrev pub FailsLine : Option Exn → Machine → Type 0
  FailsLine = FoundNone (literal line_end) m

  line-IsRead :
      (n : Machine) (got : Bytes)
      → Got m.world got n
      → (h : IsSought (literal line_end) (m.self.buffer ++ got) n.self)
      → IsRead m (some (h.front ++ line_end)) n
  line-IsRead n got g h =
      let (e, l) = sought-IsLine (m.self.buffer ++ got) n.self h in
      (got, g, h.whole ∙ ap (λ t. h.front ++ t ++ n.self.buffer) e, inl l)

  rest-IsRead :
      (n : Machine) (got : Bytes)
      → Got m.world got n
      → IsUnsought (literal line_end) (m.self.buffer ++ got) n.self
      → IsRead m (some (m.self.buffer ++ got)) n
  rest-IsRead n got g h = (
    got,
    g,
    sym (append-nil (m.self.buffer ++ got)) ∙ ap (λ t. m.self.buffer ++ got ++ t) (sym h.buffer),
    inr (h.buffer, unsought-IsUnended (m.self.buffer ++ got) n.self h),
  )

  line_result-IsRead :
      (index : Option ℕ)
      → Triple (FoundOne (literal line_end) m index) (line_result index) (IsRead m) FailsLine
  unfolding line_result self gets ◌>>=◌
  line_result-IsRead none = record { run = λ n h. elim h [ ] }
  line_result-IsRead (some zero) = record { run = λ n h. at_line n h.0 h.1 h.2 }
    where
      at_line :
          (n : Machine) (got : Bytes)
          → Got m.world got n
          → Sought (literal line_end) 0 (m.self.buffer ++ got) n.self
          → Post (IsRead m) FailsLine (line_result (some 0) n).0 (line_result (some 0) n).1
      at_line n got g (inl (e, h)) =
          Post-run (IsRead m) FailsLine (before_text-some n _ n.self.before h.front h.before)
            (line-IsRead n got g h)
      at_line n got g (inr (e, h)) = absurd (omega (arith, e))
  line_result-IsRead (some (suc k)) = record { run = λ n h. at_end n h.0 h.1 h.2 }
    where
      at_end :
          (n : Machine) (got : Bytes)
          → Got m.world got n
          → Sought (literal line_end) (suc k) (m.self.buffer ++ got) n.self
          → Post
              (IsRead m)
              FailsLine
              (line_result (some (suc k)) n).0
              (line_result (some (suc k)) n).1
      at_end n got g (inl (e, h)) = absurd (omega (arith, e))
      at_end n got g (inr (e, h)) =
          Post-run (IsRead m) FailsLine (before_text-some n _ n.self.before _ h.before)
            (rest-IsRead n got g h)

  pub readline-Triple :
      (size : ℤ) → size ≢ pos 0 → Triple (λ n. n ≡ m) (readline size) (IsRead m) FailsLine
  unfolding readline
  readline-Triple (pos zero) ne = absurd (ne refl)
  readline-Triple (pos (suc k)) ne =
      Triple-bind _ _ (text-Found (literal line_end) minus_one m) line_result-IsRead
  readline-Triple (negsuc k) ne =
      Triple-bind _ _ (text-Found (literal line_end) minus_one m) line_result-IsRead

  -- With any size but 0, `readline` returns or raises, and what it returns begins the text that it
  -- has looked at, of which the rest stays in `buffer`: that text is the old buffer and the next part
  -- of what the child wrote and the thread queued. What it returns ends with the first end of a line
  -- of that text; or else EOF has come, all of the text is returned, and there is no end of a line in
  -- it. Where it raises, or does not return, the text is accounted for as in `expect_loop`.
  pub readline-IsRead :
      (size : ℤ) → size ≢ pos 0 → Post (IsRead m) FailsLine (readline size m).0 (readline size m).1
  readline-IsRead size ne = (readline-Triple size ne).run m refl
