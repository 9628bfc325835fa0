-- ===== src/Testutils/Parsed.antt =====
-- What the helpers return of the output of the shell.
use custom_shell.Prelude.{
  ℕ, zero, suc, List, [], ◌∷◌, ◌++◌, Bytes, Option, none, some, ◌≡◌, refl, sym, ◌∙◌, ap, subst,
  arith,
}
use custom_shell.Python.Exec.{Outcome, ok, pure, gets, ◌>>=◌}
use custom_shell.Python.Exec.Triple.{Triple, Post, Triple-bind, Triple-pure}
use custom_shell.Python.Regex.{Regex, group_value}
use custom_shell.Python.Regex.Classes.{AllIn}
use custom_shell.Pexpect.Machine.{match_of, Machine, M, self}
use custom_shell.Pexpect.Expect.Received.{Got}
use custom_shell.Pexpect.Streams.Sought.{IsSought}
use custom_shell.OutputSpec.{is_other, prompt, bgjob_regex}
use custom_shell.Testutils.{
  minus_one, assert_zero, expect_prompt, group_values, regex2tuple, expect_regex, BgStatus,
  to_bg_status, parse_bg_status,
}
use custom_shell.Testutils.Single.{IsSingle, SingleFails, single-IsSingle}
use custom_shell.Testutils.Texts.{
  sought-IsMatch, prompt_text, prompt-Eats, bg_text, IsNumber, bgjob-Eats,
}

-- The text up to the end of what was found has been taken, and what stands before it is in `before`.
pub record IsCutAt (m : Machine) (found : Bytes) (n : Machine) : Type 0 where
  pub got : Bytes
  pub front : Bytes
  pub since : Got m.world got n
  pub text : m.self.buffer ++ got ≡ front ++ found ++ n.self.buffer
  pub before : n.self.before ≡ some front

pub sought-IsCutAt :
    (r : Regex) (m n : Machine) (got t : Bytes)
    → Got m.world got n
    → (h : IsSought r (m.self.buffer ++ got) n.self) → h.middle ≡ t
    → IsCutAt m t n
sought-IsCutAt r m n got t g h e = record {
  got = got;
  front = h.front;
  since = g;
  text = h.whole ∙ ap (λ w. h.front ++ w ++ n.self.buffer) e;
  before = h.before;
}

module _ (m : Machine) where
  -- A prompt was found.
  abbrev pub IsPrompted : Machine → Type 0
  IsPrompted n =
      (u : Bytes) × (v : Bytes) × AllIn (is_other b'@') u
      × AllIn (is_other b'>') v
      × IsCutAt m (prompt_text u v) n

  single-IsPrompted :
      (n : Machine) (got : Bytes)
      → Got m.world got n
      → IsSought prompt (m.self.buffer ++ got) n.self
      → IsPrompted n
  single-IsPrompted n got g h =
      let k = sought-IsMatch prompt _ n.self h in
      let (u, v, hu, hv, e) = prompt-Eats k.first k.last k.denotes in
      (
        u,
        v,
        hu,
        hv,
        sought-IsCutAt prompt m n got (prompt_text u v) g h (k.eats (prompt_text u v) e),
      )

  assert_zero-IsPrompted :
      (index : Option ℕ)
      → Triple
          (IsSingle prompt m index)
          (assert_zero index)
          (λ _. IsPrompted)
          (SingleFails prompt m)
  unfolding assert_zero
  assert_zero-IsPrompted none = record { run = λ n h. elim h [ ] }
  assert_zero-IsPrompted (some zero) = Triple-pure tt (λ n h. single-IsPrompted n h.1.0 h.1.1 h.1.2)
  assert_zero-IsPrompted (some (suc index)) = record { run = λ n h. absurd (omega (arith, h.0)) }

  -- Where `expect_prompt` returns, the text that has come holds a prompt, `<` and `@` and `>$` with no
  -- `@` between the first two and no `>` between the last two: it is taken off the buffer with all that
  -- stands before it, which is in `before`. Otherwise `expect` has raised, or does not return.
  pub expect_prompt-IsPrompted :
      Post (λ _. IsPrompted) (SingleFails prompt m) (expect_prompt m).0 (expect_prompt m).1
  unfolding expect_prompt
  expect_prompt-IsPrompted =
      (Triple-bind _ _ (single-IsSingle prompt minus_one m) assert_zero-IsPrompted).run m refl

  -- A line about a background job was found.
  abbrev pub IsBgStatus : BgStatus → Machine → Type 0
  IsBgStatus b n = IsNumber b.job_id × IsNumber b.pid × IsCutAt m (bg_text b.job_id b.pid) n

  abbrev HasBgValues : List Bytes → Machine → Type 0
  HasBgValues values n = (b : BgStatus) × (values ≡ b.job_id ∷ b.pid ∷ []) × IsBgStatus b n

  abbrev bg_values : M (List Bytes)
  bg_values = do s ← self; regex2tuple s.match

  bg_values-run :
      (jid pid : Bytes) (n : Machine)
      → n.self.match ≡ match_of ((2, pid) ∷ (1, jid) ∷ [])
      → bg_values n ≡ (ok (jid ∷ pid ∷ []), n)
  unfolding self gets regex2tuple group_values group_value ◌>>=◌ pure
  bg_values-run jid pid n e = rw e refl

  bg_values-HasBgValues :
      (n : Machine) (got : Bytes)
      → Got m.world got n
      → IsSought bgjob_regex (m.self.buffer ++ got) n.self
      → Post HasBgValues (SingleFails bgjob_regex m) (bg_values n).0 (bg_values n).1
  bg_values-HasBgValues n got g h =
      let k = sought-IsMatch bgjob_regex _ n.self h in
      let (jid, pid, hj, hp, e, groups) = bgjob-Eats k.first k.last k.denotes in
      subst
        (λ (r : Outcome (List Bytes) × Machine).
          Post HasBgValues (SingleFails bgjob_regex m) r.0 r.1)
        (sym (
          bg_values-run jid pid n (
            h.match ∙ ap match_of (k.groups ∙ groups ∙ ap (λ l. (2, pid) ∷ (1, jid) ∷ l) k.fresh))))
        (
          record { job_id = jid; pid = pid },
          refl,
          (
            hj,
            hp,
            sought-IsCutAt bgjob_regex m n got (bg_text jid pid) g h (k.eats (bg_text jid pid) e),
          ),
        )

  index-HasBgValues :
      (index : Option ℕ)
      → Triple (IsSingle bgjob_regex m index) bg_values HasBgValues (SingleFails bgjob_regex m)
  index-HasBgValues none = record { run = λ n h. elim h [ ] }
  index-HasBgValues (some index) = record { run = λ n h. bg_values-HasBgValues n h.1.0 h.1.1 h.1.2 }

  two-IsBgStatus :
      (b : BgStatus) (n : Machine)
      → IsBgStatus b n
      → Post IsBgStatus
          (SingleFails bgjob_regex m)
          (to_bg_status (b.job_id ∷ b.pid ∷ []) n).0
          (to_bg_status (b.job_id ∷ b.pid ∷ []) n).1
  unfolding to_bg_status pure
  two-IsBgStatus b n h = h

  to_bg_status-IsBgStatus :
      (values : List Bytes)
      → Triple (HasBgValues values) (to_bg_status values) IsBgStatus (SingleFails bgjob_regex m)
  to_bg_status-IsBgStatus values = record {
    run = λ n h.
        subst
          (λ vs.
            Post IsBgStatus (SingleFails bgjob_regex m) (to_bg_status vs n).0 (to_bg_status vs n).1)
          (sym h.1) (two-IsBgStatus h.0 n h.2);
  }

  -- Where `parse_bg_status` returns, the text that has come holds a line `[job_id] pid`, of the two
  -- numbers that it returns, whatever else stands in it: it is taken off the buffer with all that
  -- stands before it, which is in `before`. Otherwise `expect` has raised, or does not return; the
  -- two groups of the expression have always matched.
  pub parse_bg_status-IsBgStatus :
      Post IsBgStatus (SingleFails bgjob_regex m) (parse_bg_status m).0 (parse_bg_status m).1
  unfolding parse_bg_status
  parse_bg_status-IsBgStatus =
      (Triple-bind (expect_regex bgjob_regex) _
          (Triple-bind _ _ (single-IsSingle bgjob_regex minus_one m) index-HasBgValues)
          to_bg_status-IsBgStatus).run
        m refl
