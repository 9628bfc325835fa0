-- ===== src/Testutils/Single.antt =====
-- What `expect` does with one expression.
use custom_shell.Prelude.{
  ℕ, zero, suc, [], ◌∷◌, ◌++◌, Bytes, Option, none, some, ◌≡◌, inl, inr, refl, ap,
}
use custom_shell.Prelude.Int.{ℤ}
use custom_shell.Python.Exec.{Exn}
use custom_shell.Python.Exec.Triple.{Triple, Triple-pure, Triple-from, Triple-to}
use custom_shell.Python.Regex.{Regex}
use custom_shell.Pexpect.Machine.{Machine}
use custom_shell.Pexpect.Searcher.{pattern}
use custom_shell.Pexpect.SearcherRe.{new_searcher_re}
use custom_shell.Pexpect.Expect.{Searching, window_of, expect_loop}
use custom_shell.Pexpect.Expect.Received.{Got}
use custom_shell.Pexpect.Expect.Outcomes.{Returns, Fails}
use custom_shell.Pexpect.Expect.Account.{expect_loop-Triple}
use custom_shell.Pexpect.Patterns.{plain, single, searching_re, expect}
use custom_shell.Pexpect.Streams.Sought.{IsSought, matched-IsSought}
use custom_shell.Testutils.{assert_zero}

module _ (r : Regex) where
  -- The searcher of the one expression.
  abbrev pub one : Searching
  one = searching_re (new_searcher_re (pattern r ∷ []))

  one-only : (new_searcher_re (pattern r ∷ [])).searches ≡ (0, r) ∷ []
  unfolding new_searcher_re
  one-only = refl

  one-no_eof : one.eof_index ≡ none
  unfolding searching_re new_searcher_re
  one-no_eof = refl

  one-no_timeout : one.timeout_index ≡ none
  unfolding searching_re new_searcher_re
  one-no_timeout = refl

  -- The index is 0, and the expression stands in the text.
  abbrev pub IsSingle : Machine → Option ℕ → Machine → Type 0
  IsSingle m none n = ⊥
  IsSingle m (some index) n =
      (index ≡ 0) × ((got : Bytes) × Got m.world got n × IsSought r (m.self.buffer ++ got) n.self)

  abbrev pub SingleFails : Machine → Option Exn → Machine → Type 0
  SingleFails m = Fails one none m.world m.self.buffer

  pub Returns-IsSingle :
      (m : Machine) (index : Option ℕ) (n : Machine)
      → Returns one none m.world m.self.buffer index n
      → IsSingle m index n
  Returns-IsSingle m none n h = h
  Returns-IsSingle m (some index) n (got, g, inl h) =
      let (e, k) = matched-IsSought r (pattern r ∷ []) one-only index _ n.self h in (e, (got, g, k))
  Returns-IsSingle m (some index) n (got, g, inr (inl (e, h))) = absurd (cc one-no_eof)
  Returns-IsSingle m (some index) n (got, g, inr (inr (e, h))) = absurd (cc one-no_timeout)

  one-IsSingle :
      (timeout : Option ℤ) (m : Machine)
      → Triple (λ n. n ≡ m) (expect_loop one timeout (window_of none)) (IsSingle m) (SingleFails m)
  one-IsSingle timeout m =
      Triple-to
        (Triple-from
          (λ n e. (
            ap (λ (x : Machine). x.world) e,
            ap (λ (x : Machine). x.self.buffer) e,
            ap (λ (x : Machine). x.self.searchwindowsize) e,
          ))
          (expect_loop-Triple one timeout (window_of none) m))
        (Returns-IsSingle m) (λ e n h. h)

  pub single-IsSingle :
      (timeout : Option ℤ) (m : Machine)
      → Triple
          (λ n. n ≡ m)
          (expect (single (plain r)) timeout (window_of none))
          (IsSingle m)
          (SingleFails m)
  unfolding expect
  single-IsSingle timeout m = one-IsSingle timeout m

-- Where what holds of the index says that it is 0, the assertion does.
pub assert_zero-Triple :
    (Q : Option ℕ → Machine → Type 0) (E : Option Exn → Machine → Type 0)
    → ((index : Option ℕ) (n : Machine) → Q index n → index ≡ some 0)
    → (index : Option ℕ) → Triple (Q index) (assert_zero index) (λ _ n. Q (some 0) n) E
unfolding assert_zero
assert_zero-Triple Q E h none = record { run = λ n q. absurd (cc (h none n q)) }
assert_zero-Triple Q E h (some zero) = Triple-pure tt (λ n q. q)
assert_zero-Triple Q E h (some (suc index)) = record {
  run = λ n q. absurd (cc (h (some (suc index)) n q));
}
