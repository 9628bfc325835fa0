-- ===== src/Pexpect/Streams/Sought.antt =====
-- What `expect` does with a pair of patterns: an expression, and EOF.
use custom_shell.Prelude.{
  ℕ, ◌+◌, ◌≤◌, List, [], ◌∷◌, ◌++◌, Bytes, Option, none, some, length, ◌≡◌, ◌⊎◌, inl, inr, refl,
  sym, ◌∙◌, subst, ap, arith,
}
use custom_shell.Prelude.Int.{ℤ}
use custom_shell.Python.Exec.{Exn}
use custom_shell.Python.Exec.Triple.{Triple, Triple-from, Triple-to}
use custom_shell.Python.Regex
use custom_shell.Python.Regex.{Regex, Match}
use custom_shell.Pexpect.Machine.{matched, match_of, Spawn, Machine}
use custom_shell.Pexpect.Searcher.{Entry, Found, pattern, eof}
use custom_shell.Pexpect.SearcherRe.{search_start, search_re, new_searcher_re}
use custom_shell.Pexpect.SearcherRe.Leftmost.{IsChosen, search_re-IsLeftmost, search_re-none}
use custom_shell.Pexpect.Expect.{Span, Searching, window_of, expect_loop}
use custom_shell.Pexpect.Expect.Received.{Got}
use custom_shell.Pexpect.Expect.Outcomes.{IsMatched, IsMissed, IsReturned, Returns, Fails}
use custom_shell.Pexpect.Expect.Account.{expect_loop-Triple}
use custom_shell.Pexpect.Patterns.{to_span, match_groups, searching_re}

pub to_span-some :
    {A : Type 0} (groups : A → List (ℕ × Bytes)) (o : Option (Found A)) (f : Span)
    → to_span groups o ≡ some f
    → (g : Found A) × (o ≡ some g)
      × (g.index ≡ f.index)
      × (g.start ≡ f.start)
      × (g.end ≡ f.end)
      × (groups g.match ≡ f.groups)
to_span-some groups none f h = cc
to_span-some groups (some g) f h = (
  g,
  refl,
  ground arith,
  ground arith,
  ground arith,
  ap (λ o. elim o [ none ↦ [] | some x ↦ x.groups ]) h,
)

to_span-none :
    {A : Type 0} (groups : A → List (ℕ × Bytes)) (o : Option (Found A))
    → to_span groups o ≡ none
    → o ≡ none
to_span-none groups none h = refl
to_span-none groups (some g) h = cc

module _ (r : Regex) where
  -- The searcher of the pair.
  abbrev pub pair : Searching
  pair = searching_re (new_searcher_re (pattern r ∷ eof ∷ []))

  -- The expression stands in the text, which the attributes cut in three.
  pub record IsSought (incoming : Bytes) (s : Spawn) : Type 0 where
    pub found : Match
    pub front : Bytes
    pub middle : Bytes
    pub search : Regex.search r incoming 0 ≡ some found
    pub before : s.before ≡ some front
    pub after : s.after ≡ matched middle
    pub whole : incoming ≡ front ++ middle ++ s.buffer
    pub start : length front ≡ found.start
    pub end : length front + length middle ≡ found.end
    pub match : s.match ≡ match_of found.groups

  -- The expression does not stand in the text, and the child has no more.
  pub record IsUnsought (incoming : Bytes) (s : Spawn) : Type 0 where
    pub missed : (m : Match) → Regex.search r incoming 0 ≡ some m → length incoming ≤ m.start
    pub before : s.before ≡ some incoming
    pub buffer : s.buffer ≡ []

  only_entry :
      (incoming : Bytes) (g : Found Match)
      → IsChosen incoming 0 g ((0, r) ∷ [])
      → (g.index ≡ 0)
        × (Regex.search r incoming 0 ≡ some g.match)
        × (g.match.start ≡ g.start)
        × (g.match.end ≡ g.end)
  only_entry incoming g (inl (i, e, a, b)) = (sym i, e, sym a, sym b)
  only_entry incoming g (inr (n, a)) = elim a [ ]

  -- A list of which this is the only expression.
  module _ (entries : List (Entry Regex))
      (only : (new_searcher_re entries).searches ≡ (0, r) ∷ []) where
    search-only :
        (incoming : Bytes) (freshlen : ℕ) (g : Found Match)
        → search_re (new_searcher_re entries) incoming freshlen none ≡ some g
        → (g.index ≡ 0)
          × (Regex.search r incoming 0 ≡ some g.match)
          × (g.match.start ≡ g.start)
          × (g.match.end ≡ g.end)
    unfolding search_start
    search-only incoming freshlen g h = only_entry incoming g (
        subst (λ l. IsChosen incoming 0 g l) only
          (search_re-IsLeftmost (new_searcher_re entries) incoming freshlen none g h).first)

    list-search :
        (incoming : Bytes) (freshlen : ℕ)
        → (searching_re (new_searcher_re entries)).search incoming freshlen none
          ≡ to_span match_groups (search_re (new_searcher_re entries) incoming freshlen none)
    unfolding searching_re
    list-search incoming freshlen = refl

    pub matched-IsSought :
        (index : ℕ) (incoming : Bytes) (s : Spawn)
        → IsMatched (searching_re (new_searcher_re entries)) none index incoming s
        → (index ≡ 0) × IsSought incoming s
    matched-IsSought index incoming s h =
        let (g, e, i, a, b, same) =
          to_span-some match_groups _ h.span (sym (list-search incoming h.freshlen) ∙ h.found) in
        let (zeroth, k, from, to) = search-only incoming h.freshlen g e in
        (
          sym h.index ∙ sym i ∙ zeroth,
          record {
            found = g.match;
            front = h.front;
            middle = h.middle;
            search = k;
            before = h.before;
            after = h.after;
            whole = h.whole;
            start = h.start ∙ sym a ∙ sym from;
            end = h.end ∙ sym b ∙ sym to;
            match = h.match ∙ ap match_of (sym same);
          },
        )

  pair-only : (new_searcher_re (pattern r ∷ eof ∷ [])).searches ≡ (0, r) ∷ []
  unfolding new_searcher_re
  pair-only = refl

  search_pair-missed :
      (incoming : Bytes) (freshlen : ℕ)
      → search_re (new_searcher_re (pattern r ∷ eof ∷ [])) incoming freshlen none ≡ none
      → (m : Match) → Regex.search r incoming 0 ≡ some m
      → length incoming ≤ m.start
  unfolding new_searcher_re search_start
  search_pair-missed incoming freshlen h m e = (search_re-none _ incoming freshlen none h).0 m e

  pair-search :
      (incoming : Bytes) (freshlen : ℕ)
      → pair.search incoming freshlen none
        ≡ to_span match_groups
            (search_re (new_searcher_re (pattern r ∷ eof ∷ [])) incoming freshlen none)
  unfolding searching_re
  pair-search incoming freshlen = refl

  pair-eof_index : pair.eof_index ≡ some 1
  unfolding searching_re new_searcher_re
  pair-eof_index = refl

  pair-timeout_index : pair.timeout_index ≡ none
  unfolding searching_re new_searcher_re
  pair-timeout_index = refl

  IsMissed-IsUnsought :
      (incoming : Bytes)
      → IsMissed pair none incoming
      → (m : Match) → Regex.search r incoming 0 ≡ some m
      → length incoming ≤ m.start
  IsMissed-IsUnsought incoming (freshlen, h) =
      search_pair-missed incoming freshlen
        (to_span-none match_groups _ (sym (pair-search incoming freshlen) ∙ h))

  -- The index is 0 where the expression was found, and 1 at EOF.
  abbrev pub Sought : ℕ → Bytes → Spawn → Type 0
  Sought index incoming s =
      ((index ≡ 0) × IsSought incoming s) ⊎ ((index ≡ 1) × IsUnsought incoming s)

  IsReturned-Sought :
      (index : ℕ) (incoming : Bytes) (s : Spawn)
      → IsReturned pair none index incoming s
      → Sought index incoming s
  IsReturned-Sought index incoming s (inl h) =
      inl (matched-IsSought (pattern r ∷ eof ∷ []) pair-only index incoming s h)
  IsReturned-Sought index incoming s (inr (inl (e, (missed, buffer, before, after, i, found)))) =
      inr (
        ground (arith, sym e ∙ pair-eof_index),
        record { missed = IsMissed-IsUnsought incoming missed; before = before; buffer = buffer },
      )
  IsReturned-Sought index incoming s (inr (inr (e, h))) = absurd (cc pair-timeout_index)

  -- What `expect` returns, where it started from `m`.
  abbrev pub FoundOne : Machine → Option ℕ → Machine → Type 0
  FoundOne m none n = ⊥
  FoundOne m (some index) n =
      (got : Bytes) × Got m.world got n × Sought index (m.self.buffer ++ got) n.self

  abbrev pub FoundNone : Machine → Option Exn → Machine → Type 0
  FoundNone m = Fails pair none m.world m.self.buffer

  Returns-FoundOne :
      (m : Machine) (index : Option ℕ) (n : Machine)
      → Returns pair none m.world m.self.buffer index n
      → FoundOne m index n
  Returns-FoundOne m none n h = h
  Returns-FoundOne m (some index) n (got, g, h) =
      (got, g, IsReturned-Sought index (m.self.buffer ++ got) n.self h)

  pub pair-Found :
      (timeout : Option ℤ) (m : Machine)
      → Triple (λ n. n ≡ m) (expect_loop pair timeout (window_of none)) (FoundOne m) (FoundNone m)
  pair-Found timeout m =
      Triple-to
        (Triple-from
          (λ n e. (
            ap (λ (x : Machine). x.world) e,
            ap (λ (x : Machine). x.self.buffer) e,
            ap (λ (x : Machine). x.self.searchwindowsize) e,
          ))
          (expect_loop-Triple pair timeout (window_of none) m))
        (Returns-FoundOne m) (λ e n h. h)
