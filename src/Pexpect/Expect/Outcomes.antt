-- ===== src/Pexpect/Expect/Outcomes.antt =====
-- The ways out of the loop of `expect_loop`, and what they leave.
use custom_shell.Prelude.{
  ℕ, zero, suc, ◌+◌, ◌-◌, ◌≤◌, [], ◌++◌, append_assoc, Bytes, Option, none, some, length, take,
  drop, slice_parts, length-take, length-drop, ◌≡◌, refl, sym, arith, ◌⊎◌, inl, inr, subst,
}
use custom_shell.Prelude.Int.{ℤ}
use custom_shell.Python.Exec.{Exn, pure, raise, modify, ◌>>=◌}
use custom_shell.Python.Exec.Triple.{Triple, Post, Triple-from, Triple-if, Triple-try_else}
use custom_shell.Pexpect.Machine.{
  After, matched, eof_class, timeout_class, no_match, match_of, eof_match, timeout_match, World,
  Spawn, Machine, M, set_self,
}
use custom_shell.Pexpect.Expect.{
  Span, Searching, read_on, is_over, extend, fresh, accept, class_or_none, return_or_raise,
  on_exception, round, seek,
}
use custom_shell.Pexpect.Expect.Received.{Got, Has, Came, size}
use custom_shell.Pexpect.Expect.Receives.{read_on-Came}

module _ (searcher : Searching) (window : Option ℕ) where
  -- The attributes after a match in `incoming`, which they cut in three.
  pub record IsMatched (result : ℕ) (incoming : Bytes) (s : Spawn) : Type 0 where
    pub span : Span
    pub freshlen : ℕ
    pub front : Bytes
    pub middle : Bytes
    pub found : searcher.search incoming freshlen window ≡ some span
    pub index : span.index ≡ result
    pub before : s.before ≡ some front
    pub after : s.after ≡ matched middle
    pub whole : incoming ≡ front ++ middle ++ s.buffer
    pub start : length front ≡ span.start
    pub end : length front + length middle ≡ span.end
    pub match : s.match ≡ match_of span.groups
    pub match_index : s.match_index ≡ some result

  -- A search of all of `incoming` has failed.
  abbrev pub IsMissed : Bytes → Type 0
  IsMissed incoming = (freshlen : ℕ) × (searcher.search incoming freshlen window ≡ none)

  -- The attributes after EOF or TIMEOUT, and after any other exception.
  abbrev pub IsEof : Bytes → Spawn → Type 0
  IsEof incoming s =
      IsMissed incoming
      × (s.buffer ≡ [])
      × (s.before ≡ some incoming)
      × (s.after ≡ eof_class)
      × (s.match_index ≡ searcher.eof_index)
      × (s.match ≡ class_or_none eof_match searcher.eof_index)

  abbrev pub IsTimeout : Bytes → Spawn → Type 0
  IsTimeout incoming s =
      IsMissed incoming
      × (s.buffer ≡ incoming)
      × (s.before ≡ some incoming)
      × (s.after ≡ timeout_class)
      × (s.match_index ≡ searcher.timeout_index)
      × (s.match ≡ class_or_none timeout_match searcher.timeout_index)

  abbrev pub IsReturned : ℕ → Bytes → Spawn → Type 0
  IsReturned index incoming s =
      IsMatched index incoming s
      ⊎ ((searcher.eof_index ≡ some index) × IsEof incoming s)
      ⊎ ((searcher.timeout_index ≡ some index) × IsTimeout incoming s)

  abbrev pub IsRaised : Exn → Bytes → Spawn → Type 0
  IsRaised Exn.eof incoming s = (searcher.eof_index ≡ none) × IsEof incoming s
  IsRaised Exn.timeout incoming s = (searcher.timeout_index ≡ none) × IsTimeout incoming s
  IsRaised e incoming s =
      IsMissed incoming
      × (s.before ≡ some incoming)
      × (s.after ≡ After.no_text)
      × (s.match_index ≡ none)
      × (s.match ≡ no_match)

  -- The outcome, where the loop started with `buffer` in the world `w`.
  module _ (w : World) (buffer : Bytes) where
    abbrev pub Returns : Option ℕ → Machine → Type 0
    Returns none m = ⊥
    Returns (some index) m = (got : Bytes) × Got w got m × IsReturned index (buffer ++ got) m.self

    abbrev pub Fails : Option Exn → Machine → Type 0
    Fails none m = (got : Bytes) × Got w got m
    Fails (some e) m = (got : Bytes) × Got w got m × IsRaised e (buffer ++ got) m.self

    accept-Returns :
        (got : Bytes) (f : Span) (freshlen : ℕ)
        → searcher.search (buffer ++ got) freshlen window ≡ some f
        → Triple (Got w got) (accept (buffer ++ got) f) Returns Fails
    unfolding accept set_self modify ◌>>=◌ pure
    accept-Returns got f freshlen e = record {
      run = λ s h. (
        got,
        h,
        inl (record {
          span = f;
          freshlen = freshlen;
          front = take f.start (buffer ++ got);
          middle = take (f.end - f.start) (drop f.start (buffer ++ got));
          found = e;
          index = refl;
          before = refl;
          after = refl;
          whole = slice_parts f.start f.end (buffer ++ got) (order f e).0;
          start = omega (arith, length-take f.start (buffer ++ got), order f e);
          end = omega (
            arith,
            length-take f.start (buffer ++ got),
            length-take (f.end - f.start) (drop f.start (buffer ++ got)),
            length-drop f.start (buffer ++ got),
            order f e,
          );
          match = refl;
          match_index = refl;
        }),
      );
    }
      where
        order :
            (f : Span)
            → searcher.search (buffer ++ got) freshlen window ≡ some f
            → (f.start ≤ f.end) × (f.end ≤ length (buffer ++ got))
        order f e = searcher.within (buffer ++ got) freshlen window f e

    eof-Returns :
        (got : Bytes) (index : Option ℕ) (s : Machine)
        → searcher.eof_index ≡ index
        → Got w got s
        → IsEof (buffer ++ got) s.self
        → Post Returns Fails (return_or_raise Exn.eof index s).0 (return_or_raise Exn.eof index s).1
    unfolding return_or_raise pure raise
    eof-Returns got none s e h i = (got, h, (e, i))
    eof-Returns got (some index) s e h i = (got, h, inr (inl (e, i)))

    timeout-Returns :
        (got : Bytes) (index : Option ℕ) (s : Machine)
        → searcher.timeout_index ≡ index
        → Got w got s
        → IsTimeout (buffer ++ got) s.self
        → Post Returns Fails
            (return_or_raise Exn.timeout index s).0
            (return_or_raise Exn.timeout index s).1
    unfolding return_or_raise pure raise
    timeout-Returns got none s e h i = (got, h, (e, i))
    timeout-Returns got (some index) s e h i = (got, h, inr (inr (e, i)))

    on_exception-Returns :
        (got : Bytes) (e : Exn)
        → IsMissed (buffer ++ got)
        → Triple (Got w got) (on_exception searcher (buffer ++ got) e) Returns Fails
    unfolding on_exception set_self modify ◌>>=◌ raise
    on_exception-Returns got Exn.eof x = record {
      run = λ s h. eof-Returns got searcher.eof_index _ refl h (x, refl, refl, refl, refl, refl);
    }
    on_exception-Returns got Exn.timeout x = record {
      run = λ s h.
          timeout-Returns got searcher.timeout_index _ refl h (x, refl, refl, refl, refl, refl);
    }
    on_exception-Returns got e x = record { run = λ s h. (got, h, (x, refl, refl, refl, refl)) }

    module _ (end_time : ℤ) where
      round-Returns :
          (k : ℕ) (again : Option ℤ → Bytes → ℕ → M (Option ℕ)) (found : Option Span)
          (limit : Option ℤ) (got : Bytes) (freshlen : ℕ)
          → searcher.search (buffer ++ got) freshlen window ≡ found
          → ((t : Option ℤ) (more : Bytes) (n : ℕ)
              → Triple
                  (λ m. Got w more m × (suc (size m.world) ≤ k))
                  (again t (buffer ++ more) n)
                  Returns
                  Fails)
          → Triple
              (Has w got k)
              (round searcher window end_time again found limit (buffer ++ got) freshlen)
              Returns
              Fails
      unfolding round
      round-Returns k again (some f) limit got freshlen e rest =
          Triple-from (λ s h. h.0) (accept-Returns got f freshlen e)
      round-Returns k again none limit got freshlen e rest =
          Triple-if (is_over limit) _ _
            (λ _. Triple-from (λ s h. h.0) (on_exception-Returns got Exn.timeout (freshlen, e)))
            (λ _.
              Triple-try_else (read_on end_time limit) (on_exception searcher (buffer ++ got)) _
                (read_on-Came w got k end_time limit)
                (λ x. on_exception-Returns got x (freshlen, e)) (λ r. proceed r.0 r.1)
                (λ s h. (got, h)))
        where
          proceed :
              (c : Option Bytes) (t : Option ℤ)
              → Triple
                  (Came w got k c)
                  (again t (extend (buffer ++ got) c) (fresh freshlen c))
                  Returns
                  Fails
          proceed none t = rest t got freshlen
          proceed (some c) t =
              subst (λ b. Triple (Came w got k (some c)) (again t b (length c)) Returns Fails)
                (sym (append_assoc buffer got c)) (rest t (got ++ c) (length c))

      pub seek-Returns :
          (fuel : ℕ) (limit : Option ℤ) (got : Bytes) (freshlen : ℕ)
          → Triple
              (λ m. Got w got m × (suc (size m.world) ≤ fuel))
              (seek searcher window end_time fuel limit (buffer ++ got) freshlen)
              Returns
              Fails
      unfolding seek
      seek-Returns zero limit got freshlen = record { run = λ s h. absurd (omega (arith, h.1)) }
      seek-Returns (suc fuel) limit got freshlen =
          Triple-from (λ s h. (h.0, omega (arith, h.1)))
            (round-Returns fuel (seek searcher window end_time fuel)
              (searcher.search (buffer ++ got) freshlen window) limit got freshlen refl
              (λ t more n. seek-Returns fuel t more n))
