-- ===== src/Pexpect/Streams/Sizes.antt =====
-- What `read` returns.
use custom_shell.Prelude.{
  ℕ, zero, suc, ◌≤◌, ◌<◌, [], ◌∷◌, ◌++◌, append-nil, Bytes, Option, none, some, length, ◌≡◌, ◌⊎◌,
  inl, inr, refl, sym, ◌∙◌, ap, arith,
}
use native.Mathlib.Decide.{dec_le}
use custom_shell.Prelude.Int.{pos}
use custom_shell.Python.Exec.{Exn, gets, ◌>>=◌}
use custom_shell.Python.Exec.Triple.{Triple, Post, Triple-bind}
use custom_shell.Python.Regex.{Match, any_bytes}
use custom_shell.Python.Regex.Literal.{search-any_bytes, search-any_bytes-none}
use custom_shell.Pexpect.Machine.{Spawn, Machine, self}
use custom_shell.Pexpect.Expect.Received.{Got}
use custom_shell.Pexpect.Streams.{minus_one, read_result, read}
use custom_shell.Pexpect.Streams.Sought.{IsSought, IsUnsought, Sought, FoundOne, FoundNone}
use custom_shell.Pexpect.Streams.Lines.{
  compiled-Found, before_text-some, after_text-matched, Post-run,
}

-- `size` bytes of a text, or all of a text that is shorter.
abbrev pub IsCut : ℕ → Machine → Option Bytes → Machine → Type 0
IsCut size m none n = ⊥
IsCut size m (some s) n =
    (got : Bytes) × Got m.world got n
    × (m.self.buffer ++ got ≡ s ++ n.self.buffer)
    × ((length s ≡ size) ⊎ ((length s < size) × (n.self.buffer ≡ [])))

same-ends : (m r : Match) → some m ≡ some r → (m.start ≡ r.start) × (m.end ≡ r.end)
same-ends m r e = (
  ap (λ o. elim o [ none ↦ 0 | some x ↦ x.start ]) e,
  ap (λ o. elim o [ none ↦ 0 | some x ↦ x.end ]) e,
)

module _ (k : ℕ) (incoming : Bytes) (s : Spawn) where
  long-enough : IsSought (any_bytes (suc k)) incoming s → suc k ≤ length incoming
  long-enough h = elim (dec_le (suc k) (length incoming)) [
    | yes le ↦ le
    | no gt ↦ cc (search-any_bytes-none (suc k) incoming (omega arith), h.search)
  ]

  cut-front :
      (h : IsSought (any_bytes (suc k)) incoming s) → (h.front ≡ []) × (length h.middle ≡ suc k)
  cut-front h =
      let (from, to) = same-ends _ _ (sym h.search ∙ search-any_bytes k incoming (long-enough h)) in
      (empty-of h.front (h.start ∙ from), omega (arith, h.start, h.end, from, to))
    where
      empty-of : (xs : Bytes) → length xs ≡ 0 → xs ≡ []
      empty-of [] e = refl
      empty-of (x ∷ xs) e = absurd (omega (arith, e))

  uncut-short : IsUnsought (any_bytes (suc k)) incoming s → length incoming < suc k
  uncut-short h = elim (dec_le (suc k) (length incoming)) [
    | yes le ↦ absurd (omega (arith, h.missed _ (search-any_bytes k incoming le), le))
    | no gt ↦ omega arith
  ]

module _ (m : Machine) (k : ℕ) where
  abbrev pub FailsSize : Option Exn → Machine → Type 0
  FailsSize = FoundNone (any_bytes (suc k)) m

  whole-IsCut :
      (n : Machine) (got : Bytes)
      → Got m.world got n
      → (h : IsSought (any_bytes (suc k)) (m.self.buffer ++ got) n.self)
      → IsCut (suc k) m (some h.middle) n
  whole-IsCut n got g h =
      let (e, l) = cut-front k (m.self.buffer ++ got) n.self h in
      (got, g, h.whole ∙ ap (λ t. t ++ h.middle ++ n.self.buffer) e, inl l)

  short-IsCut :
      (n : Machine) (got : Bytes)
      → Got m.world got n
      → IsUnsought (any_bytes (suc k)) (m.self.buffer ++ got) n.self
      → IsCut (suc k) m (some (m.self.buffer ++ got)) n
  short-IsCut n got g h = (
    got,
    g,
    sym (append-nil (m.self.buffer ++ got)) ∙ ap (λ t. m.self.buffer ++ got ++ t) (sym h.buffer),
    inr (uncut-short k (m.self.buffer ++ got) n.self h, h.buffer),
  )

  read_result-IsCut :
      (index : Option ℕ)
      → Triple
          (FoundOne (any_bytes (suc k)) m index)
          (read_result index)
          (IsCut (suc k) m)
          FailsSize
  unfolding read_result self gets ◌>>=◌
  read_result-IsCut none = record { run = λ n h. elim h [ ] }
  read_result-IsCut (some zero) = record { run = λ n h. at_size n h.0 h.1 h.2 }
    where
      at_size :
          (n : Machine) (got : Bytes)
          → Got m.world got n
          → Sought (any_bytes (suc k)) 0 (m.self.buffer ++ got) n.self
          → Post (IsCut (suc k) m) FailsSize (read_result (some 0) n).0 (read_result (some 0) n).1
      at_size n got g (inl (e, h)) =
          Post-run (IsCut (suc k) m) FailsSize (after_text-matched n _ n.self.after _ h.after)
            (whole-IsCut n got g h)
      at_size n got g (inr (e, h)) = absurd (omega (arith, e))
  read_result-IsCut (some (suc i)) = record { run = λ n h. at_end n h.0 h.1 h.2 }
    where
      at_end :
          (n : Machine) (got : Bytes)
          → Got m.world got n
          → Sought (any_bytes (suc k)) (suc i) (m.self.buffer ++ got) n.self
          → Post
              (IsCut (suc k) m)
              FailsSize
              (read_result (some (suc i)) n).0
              (read_result (some (suc i)) n).1
      at_end n got g (inl (e, h)) = absurd (omega (arith, e))
      at_end n got g (inr (e, h)) =
          Post-run (IsCut (suc k) m) FailsSize (before_text-some n _ n.self.before _ h.before)
            (short-IsCut n got g h)

  -- `read(size)` of a positive size returns or raises, and what it returns begins the text that it has
  -- looked at, of which the rest stays in `buffer`: it is `size` bytes long, or else EOF has come, and
  -- it is all of a text that is shorter. Where it raises, or does not return, the text is accounted
  -- for as in `expect_loop`.
  pub read-IsCut :
      Post (IsCut (suc k) m) FailsSize (read (pos (suc k)) m).0 (read (pos (suc k)) m).1
  unfolding read
  read-IsCut =
      (Triple-bind _ _ (compiled-Found (any_bytes (suc k)) minus_one m) read_result-IsCut).run m
        refl
