-- ===== src/Pexpect/Running/Ended.antt =====
-- How a run ends at EOF or TIMEOUT, and with which text.
use mathlib.Core.List.{flatten}
use custom_shell.Prelude.{
  ℕ, Bool, true, false, List, [], ◌∷◌, ◌++◌, append_assoc, Bytes, Option, none, some, flatten-push,
  ◌≡◌, ◌⊎◌, inl, get_elem?, refl, sym, ◌∙◌, ap, subst,
}
use custom_shell.Python.Exec.{Exn, Outcome, ok, raised, blocked, continue, pure, raise, gets, ◌>>=◌}
use custom_shell.Python.Exec.Triple.{Triple, Post}
use custom_shell.Pexpect.Machine.{Machine, M, self}
use custom_shell.Pexpect.Expect.Received.{Got}
use custom_shell.Pexpect.Expect.Taken.{Received-trans, Taken}
use custom_shell.Pexpect.Patterns.{Patterns}
use custom_shell.Pexpect.Sending.Quiet.{NotEnd}
use custom_shell.Pexpect.Streams.{before_text}
use custom_shell.Pexpect.Running.{
  Reply, answer, stop, go_on, Response, string, callback, unusable, reply, respond, find_response,
  respond_to, on_end,
}
use custom_shell.Pexpect.Sending.{send}
use custom_shell.Pexpect.Running.Matches.{Consumes, Missed}

-- Some callback has asked to stop.
abbrev pub HasStopped : Option (List Response) → Type 0
HasStopped none = ⊥
HasStopped (some responses) =
    (index : ℕ) × (f : M Reply) × (s : Machine) × (n : Machine) × (get_elem? responses index
      ≡ some (callback f))
    × (f s ≡ (ok stop, n))

-- All of the text, up to the end, or what was taken where a callback has stopped the run.
abbrev pub IsText : Option (List Response) → Machine → Bytes → Machine → Type 0
IsText responses m output n =
    ((got : Bytes) × Got m.world got n × (m.self.buffer ++ got ≡ output))
    ⊎ (Taken m output n × HasStopped responses)

-- The results, put together, are such a text.
abbrev pub IsOutput : Option (List Response) → Machine → Option (List Bytes) → Machine → Type 0
IsOutput responses m none n = ⊥
IsOutput responses m (some results) n = IsText responses m (flatten results) n

abbrev pub IsRun : Option (List Response) → Machine → Option (Bytes × Option ℕ) → Machine → Type 0
IsRun responses m none n = ⊥
IsRun responses m (some (output, status)) n = IsText responses m output n × (status ≡ none)

-- A response says that the run stops only where it is a callback that does.
module _ (responses : List Response) (index : ℕ) where
  abbrev Asked : Bool → Machine → Type 0
  Asked stops n = stops ≡ true → HasStopped (some responses)

  abbrev Whatever : Option Exn → Machine → Type 0
  Whatever e n = Unit

  sent-Asked :
      (o : Outcome ℕ) (v : Machine)
      → Post Asked Whatever (continue o (λ _. pure false) v).0 (continue o (λ _. pure false) v).1
  unfolding pure
  sent-Asked (ok c) v = λ x. cc x
  sent-Asked (raised x) v = tt
  sent-Asked blocked v = tt

  reply-Asked :
      (f : M Reply) (s n : Machine) (r : Reply)
      → get_elem? responses index ≡ some (callback f)
      → f s ≡ (ok r, n)
      → Post Asked Whatever (reply r n).0 (reply r n).1
  unfolding reply ◌>>=◌ pure
  reply-Asked f s n (answer t) e k = sent-Asked (send t n).0 (send t n).1
  reply-Asked f s n stop e k = λ x. (index, f, s, n, e, k)
  reply-Asked f s n go_on e k = λ x. cc x

  replied :
      (f : M Reply) (s : Machine) (o : Outcome Reply) (n : Machine)
      → get_elem? responses index ≡ some (callback f)
      → f s ≡ (o, n)
      → Post Asked Whatever (continue o reply n).0 (continue o reply n).1
  replied f s (ok r) n e k = reply-Asked f s n r e k
  replied f s (raised x) n e k = tt
  replied f s blocked n e k = tt

  respond-Asked :
      (r : Response) (s : Machine)
      → get_elem? responses index ≡ some r
      → Post Asked Whatever (respond r s).0 (respond r s).1
  unfolding respond ◌>>=◌ raise
  respond-Asked (string t) s e = sent-Asked (send t s).0 (send t s).1
  respond-Asked (callback f) s e = replied f s (f s).0 (f s).1 e refl
  respond-Asked unusable s e = tt

  found-Asked :
      (o : Option Response) (s : Machine)
      → get_elem? responses index ≡ o
      → Post Asked Whatever ((find_response o >>= respond) s).0 ((find_response o >>= respond) s).1
  unfolding find_response ◌>>=◌ pure raise
  found-Asked none s e = tt
  found-Asked (some r) s e = respond-Asked r s e

-- The same of `respond_to`.
pub respond_to-Asked :
    (responses : Option (List Response)) (index : ℕ)
    → Triple
        (λ n. Unit)
        (respond_to responses index)
        (λ stops n. stops ≡ true → HasStopped responses)
        (λ e n. Unit)
unfolding respond_to raise ◌>>=◌
respond_to-Asked none index = record { run = λ n h. tt }
respond_to-Asked (some responses) index = record {
  run = λ n h. found-Asked responses index (get_elem? responses index) n refl;
}

module _ (responses : Option (List Response)) (m : Machine) where
  -- An exception of a response that is not EOF or TIMEOUT goes through.
  pub pass-NotEnd :
      (results : List Bytes) (e : Exn)
      → Triple (NotEnd (some e)) (on_end results e) (IsOutput responses m) NotEnd
  unfolding on_end raise
  pass-NotEnd results Exn.eof = record { run = λ n h. absurd (h.0 refl) }
  pass-NotEnd results Exn.timeout = record { run = λ n h. absurd (h.1 refl) }
  pass-NotEnd results e = record { run = λ n h. h }

  -- All of the text, behind what was taken before.
  all-IsOutput :
      (results : List Bytes) (s n : Machine) (got : Bytes)
      → Taken m (flatten results) s
      → Got s.world got n
      → IsOutput responses m (some (results ++ (s.self.buffer ++ got) ∷ [])) n
  all-IsOutput results s n got h g = inl (
    h.got ++ got,
    Received-trans m.world s.world h.got got _ _ h.since g,
    sym (append_assoc m.self.buffer h.got got)
        ∙ ap (λ t. t ++ got) h.text
        ∙ append_assoc (flatten results) s.self.buffer got
        ∙ sym (flatten-push results (s.self.buffer ++ got)),
  )

  timeout-run :
      (results : List Bytes) (b : Bytes) (n : Machine)
      → n.self.before ≡ some b
      → on_end results Exn.timeout n ≡ (ok (some (results ++ b ∷ [])), n)
  unfolding on_end before_text self gets ◌>>=◌ pure
  timeout-run results b n e = rw e refl

  eof-run :
      (results : List Bytes) (b : Bytes) (n : Machine)
      → n.self.before ≡ some b
      → on_end results Exn.eof n ≡ (ok (some (results ++ b ∷ [])), n)
  unfolding on_end before_text self gets ◌>>=◌ pure
  eof-run results b n e = rw e refl

  module _ {r q : Outcome (Option (List Bytes)) × Machine} where
    pub from-run :
        r ≡ q
        → Post (IsOutput responses m) NotEnd q.0 q.1
        → Post (IsOutput responses m) NotEnd r.0 r.1
    from-run e h = subst (λ p. Post (IsOutput responses m) NotEnd p.0 p.1) (sym e) h

  module _ (patterns : Patterns) (law : Consumes patterns) where
    -- Where the search raises, the run ends with all of the text, or the exception goes through.
    pub end-IsOutput :
        (results : List Bytes) (s : Machine)
        → Taken m (flatten results) s
        → (e : Exn)
        → Triple (Missed patterns law s (some e)) (on_end results e) (IsOutput responses m) NotEnd
    unfolding on_end raise
    end-IsOutput results s h Exn.timeout = record {
      run = λ n (got, g, i).
          from-run (timeout-run results (s.self.buffer ++ got) n i.1.2)
            (all-IsOutput results s n got h g);
    }
    end-IsOutput results s h Exn.eof = record {
      run = λ n (got, g, i).
          from-run (eof-run results (s.self.buffer ++ got) n i.1.2)
            (all-IsOutput results s n got h g);
    }
    end-IsOutput results s h e = record { run = λ n x. (λ y. cc y, λ y. cc y) }
