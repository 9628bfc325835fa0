-- ===== src/Pexpect/Streams/AllLines.antt =====
-- What `readlines` returns.
use mathlib.Core.List.{flatten}
use custom_shell.Prelude.{
  ℕ, zero, suc, ◌<◌, List, [], ◌∷◌, ◌++◌, append-nil, Bytes, Option, none, some, false, length,
  length-append, flatten-push, All, All-append, ◌≡◌, ◌≢◌, ◌⊎◌, inl, inr, sym, ap, subst, arith,
}
use custom_shell.Prelude.Int.{negsuc}
use custom_shell.Python.Exec.{Exn}
use custom_shell.Python.Exec.Triple.{
  Triple, Post, Triple-bind, Triple-pure, Triple-at, Triple-to, Triple-from,
}
use custom_shell.Python.Text.{occurs}
use custom_shell.Python.Text.Places.{occurs-shorter}
use custom_shell.Pexpect.Machine.{Machine}
use custom_shell.Pexpect.Streams.{line_end, readline, add_read, readlines_loop, readlines}
use custom_shell.Pexpect.Expect.Taken.{bytes_left, Taken, Taken-nothing, Taken-trans, Taken-fewer}
use custom_shell.Pexpect.Streams.Lines.{IsLine, IsUnended, IsRead, FailsLine, readline-Triple}

-- A line with its end, and no end of a line before that, or a last line without one.
abbrev pub IsWhole : Bytes → Type 0
IsWhole line = (line ≢ []) × (IsLine line line ⊎ IsUnended line)

IsLine-whole :
    (incoming line rest : Bytes) → incoming ≡ line ++ rest → IsLine incoming line → IsLine line line
IsLine-whole incoming line rest e h = record {
  front = h.front;
  ends = h.ends;
  first = λ i l.
      occurs-shorter i line rest line_end
        (omega (arith, l, ap length h.ends, length-append h.front line_end))
        (subst (λ t. occurs t line_end i ≡ false) e (h.first i l));
}

-- What the loop has read in `n`, where it started from `m`.
pub record HasLines (m : Machine) (lines : List Bytes) (n : Machine) : Type 0 where
  pub taken : Taken m (flatten lines) n
  pub whole : All IsWhole lines

-- All lines up to an EOF behind which nothing came at once.
abbrev pub HasAll : Machine → Option (List Bytes) → Machine → Type 0
HasAll m none n = ⊥
HasAll m (some lines) n = HasLines m lines n × (n.self.buffer ≡ [])

-- The lines before an exception of `readline`.
abbrev pub LosesLines : Machine → Option Exn → Machine → Type 0
LosesLines m e n = (lines : List Bytes) × (k : Machine) × HasLines m lines k × FailsLine k e n

module _ (m : Machine) where
  begin-HasLines : HasLines m [] m
  unfolding flatten
  begin-HasLines = record { taken = Taken-nothing m; whole = tt }

  add-HasLines :
      (lines : List Bytes) (line : Bytes) (k n : Machine)
      → line ≢ []
      → HasLines m lines k
      → IsRead k (some line) n
      → HasLines m (lines ++ line ∷ []) n
  add-HasLines lines line k n ne h (got, since, text, ends) = record {
    taken =
        subst (λ t. Taken m t n) (sym (flatten-push lines line))
          (Taken-trans m k n (flatten lines) line h.taken
            (record { got = got; since = since; text = text }));
    whole = All-append IsWhole lines (line ∷ []) h.whole ((ne, whole-of ends), tt);
  }
    where
      whole-of :
          IsLine (k.self.buffer ++ got) line ⊎ ((n.self.buffer ≡ []) × IsUnended line)
          → IsLine line line ⊎ IsUnended line
      whole-of (inl l) = inl (IsLine-whole (k.self.buffer ++ got) line n.self.buffer text l)
      whole-of (inr l) = inr l.1

  -- Where `readline` returns the empty text, there is nothing left in the buffer.
  end-HasAll :
      (lines : List Bytes) (k n : Machine)
      → HasLines m lines k
      → IsRead k (some []) n
      → HasAll m (some lines) n
  end-HasAll lines k n h (got, since, text, ends) = (
    record {
      taken =
          subst (λ t. Taken m t n) (append-nil (flatten lines))
            (Taken-trans m k n (flatten lines) [] h.taken
              (record { got = got; since = since; text = text }));
      whole = h.whole;
    },
    empty-of ends,
  )
    where
      empty-of :
          IsLine (k.self.buffer ++ got) [] ⊎ ((n.self.buffer ≡ []) × IsUnended [])
          → n.self.buffer ≡ []
      empty-of (inl l) = absurd (omega (arith, ap length l.ends, length-append l.front line_end))
      empty-of (inr l) = l.0

  IsRead-fewer :
      (c : ℕ) (line : Bytes) (k n : Machine)
      → IsRead k (some (c ∷ line)) n
      → bytes_left n < bytes_left k
  IsRead-fewer c line k n (got, since, text, ends) =
      Taken-fewer c line k n (record { got = got; since = since; text = text })

  -- The loop has read `lines`, and the fuel is enough for what is left.
  abbrev Looping : ℕ → List Bytes → Machine → Type 0
  Looping fuel lines n = HasLines m lines n × (bytes_left n < fuel)

  add_read-HasAll :
      (fuel : ℕ) (lines : List Bytes) (k : Machine)
      → Looping (suc fuel) lines k
      → ((more : List Bytes)
          → Triple (Looping fuel more) (readlines_loop fuel more) (HasAll m) (LosesLines m))
      → (line : Option Bytes)
      → Triple (IsRead k line) (add_read (readlines_loop fuel) lines line) (HasAll m) (LosesLines m)
  unfolding add_read
  add_read-HasAll fuel lines k h again none = record { run = λ n x. elim x [ ] }
  add_read-HasAll fuel lines k h again (some []) =
      Triple-pure (some lines) (λ n x. end-HasAll lines k n h.0 x)
  add_read-HasAll fuel lines k h again (some (c ∷ line)) =
      Triple-from
        (λ n x. (
          add-HasLines lines (c ∷ line) k n (λ e. cc e) h.0 x,
          omega (arith, h.1, IsRead-fewer c line k n x),
        ))
        (again (lines ++ (c ∷ line) ∷ []))

  readlines_loop-HasAll :
      (fuel : ℕ) (lines : List Bytes)
      → Triple (Looping fuel lines) (readlines_loop fuel lines) (HasAll m) (LosesLines m)
  unfolding readlines_loop
  readlines_loop-HasAll zero lines = record { run = λ n h. absurd (omega (arith, h.1)) }
  readlines_loop-HasAll (suc fuel) lines = Triple-at (λ k h.
      Triple-bind (readline (negsuc 0)) _
        (Triple-to (readline-Triple k (negsuc 0) (λ e. cc e)) (λ line n x. x)
          (λ e n x. (lines, k, h.0, x)))
        (add_read-HasAll fuel lines k h (readlines_loop-HasAll fuel)))

  -- `readlines` ends: as many rounds as there are bytes left to read, and one more, are enough for its
  -- loop. The lines that it returns, put together, are the old buffer and all that has come since;
  -- none of them is empty, each ends with the only end of a line in it, or has no end of a line; and
  -- `buffer` is empty. Where `readline` raises, or does not return, so does `readlines`, and the text
  -- is the lines that it has read, which are lost, and what `readline` leaves.
  pub readlines-HasAll : Post (HasAll m) (LosesLines m) (readlines m).0 (readlines m).1
  unfolding readlines
  readlines-HasAll =
      (readlines_loop-HasAll (suc (bytes_left m)) []).run m (begin-HasLines, omega arith)
