-- ===== src/Pexpect/Expect/Rounds.antt =====
-- Rounds of `expect_loop` without a timeout, one by one: what comes from the drain thread, and the
-- end of the file behind it.
use custom_shell.Prelude.{
  ℕ, suc, Bool, true, false, List, [], ◌∷◌, ◌++◌, Bytes, Option, none, some, length, take, drop,
  ◌-◌, ◌≡◌, refl, ap,
}
use custom_shell.Prelude.Int.{ℤ, pos}
use custom_shell.Python.Exec.{Exn, Outcome, ok, raised, raise, pure, modify, ◌>>=◌}
use custom_shell.Pexpect.Machine.{
  Read, Arrival, item, end_mark, thread_done, changed, ready, matched, set_self, World, Spawn,
  Machine,
}
use custom_shell.Pexpect.Expect.{
  Span, Searching, accept, seek, on_exception, return_or_raise, read_on, WindowArg,
  window_or_default, enough, expect_loop,
}

-- The child has ended by itself, all of its text has been read, and the descriptor shows the end of the
-- file; the drain thread still has some arrivals for the loop.
abbrev pub at_end : World → List Arrival → World
at_end w arrivals = record w {
  waits = changed 0 ∷ [];
  selects = ready ∷ ready ∷ [];
  reads = Read.failed 5 ∷ [];
  arrivals = arrivals;
  ticks = [];
}

abbrev pub draining : Bool → Spawn → Spawn
draining drain o = record o { drainpty = drain; closed = false }

-- An object that has not been closed.
abbrev pub before_end : Bool → Spawn → World → List Arrival → Machine
before_end drain o w arrivals = record { self = draining drain o; world = at_end w arrivals }

-- What the handler of EOF answers.
abbrev pub eof_answer : Option ℕ → Outcome (Option ℕ)
eof_answer none = raised Exn.eof
eof_answer (some index) = ok (some index)

-- The loop has ended with EOF, and `before` is `text`.
pub record EndsWith (searcher : Searching) (text : Bytes) (result : Outcome (Option ℕ) × Machine)
    : Type 0 where
  pub outcome : result.0 ≡ eof_answer searcher.eof_index
  pub before : result.1.self.before ≡ some text
  pub buffer : result.1.self.buffer ≡ []

return-eof :
    (index : Option ℕ) (m : Machine) → return_or_raise Exn.eof index m ≡ (eof_answer index, m)
unfolding return_or_raise raise pure
return-eof none m = refl
return-eof (some index) m = refl

eof-EndsWith :
    (searcher : Searching) (incoming : Bytes) (m : Machine)
    → EndsWith searcher incoming (on_exception searcher incoming Exn.eof m)
unfolding on_exception ◌>>=◌
eof-EndsWith searcher incoming m = record {
  outcome = ap (λ x. x.0) (return-eof searcher.eof_index _);
  before = ap (λ x. x.1.self.before) (return-eof searcher.eof_index _);
  buffer = ap (λ x. x.1.self.buffer) (return-eof searcher.eof_index _);
}

module _ (searcher : Searching) (window : Option ℕ) (end_time : ℤ) (fuel freshlen : ℕ)
    (incoming : Bytes) (o : Spawn) (w : World)
    (missed : searcher.search incoming freshlen window ≡ none) where
  pub seek-item :
      (c : Bytes) (rest : List Arrival)
      → seek searcher window end_time
          (suc fuel)
          none
          incoming
          freshlen
          (before_end true o w (item c ∷ rest))
        ≡ seek searcher window end_time fuel none
            (incoming ++ c)
            (length c)
            (before_end true o w rest)
  unfolding seek
  seek-item c rest = rw missed refl

  pub seek-end_mark :
      (rest : List Arrival)
      → seek searcher window end_time
          (suc fuel)
          none
          incoming
          freshlen
          (before_end true o w (end_mark ∷ rest))
        ≡ seek searcher window end_time fuel none incoming freshlen (before_end true o w rest)
  unfolding seek
  seek-end_mark rest = rw missed refl

  pub seek-thread_done :
      seek searcher window end_time
        (suc fuel)
        none
        incoming
        freshlen
        (before_end true o w (thread_done ∷ []))
      ≡ seek searcher window end_time (suc fuel) none incoming freshlen (before_end false o w [])
  unfolding seek
  seek-thread_done = rw missed refl

  -- The object, by what the thread has recorded of the end of the child and of its output.
  abbrev knowing : Bool → Bool → Machine
  knowing terminated flag_eof = record {
    self = record o {
      drainpty = false;
      closed = false;
      terminated = terminated;
      flag_eof = flag_eof;
    };
    world = at_end w [];
  }

  knowing-EndsWith :
      (terminated flag_eof : Bool)
      → EndsWith searcher incoming (
          seek searcher window end_time
            (suc fuel)
            none
            incoming
            freshlen
            (knowing terminated flag_eof))
  unfolding seek
  knowing-EndsWith true flag_eof =
      rw missed (eof-EndsWith searcher incoming (read_on end_time none (knowing true flag_eof)).1)
  knowing-EndsWith false true =
      rw missed (eof-EndsWith searcher incoming (read_on end_time none (knowing false true)).1)
  knowing-EndsWith false false =
      rw missed (eof-EndsWith searcher incoming (read_on end_time none (knowing false false)).1)

  pub seek-eof :
      EndsWith searcher incoming
        (seek searcher window end_time (suc fuel) none incoming freshlen (before_end false o w []))
  seek-eof = knowing-EndsWith o.terminated o.flag_eof

-- The loop has ended with a match in `text`, and has cut it there.
pub record MatchesWith (span : Span) (text : Bytes) (result : Outcome (Option ℕ) × Machine)
    : Type 0 where
  pub outcome : result.0 ≡ ok (some span.index)
  pub before : result.1.self.before ≡ some (take span.start text)
  pub after : result.1.self.after ≡ matched (take (span.end - span.start) (drop span.start text))
  pub buffer : result.1.self.buffer ≡ drop span.end text

-- A round that finds something.
pub seek-match :
    (searcher : Searching) (window : Option ℕ) (end_time : ℤ) (fuel freshlen : ℕ) (incoming : Bytes)
    (span : Span) (m : Machine)
    → searcher.search incoming freshlen window ≡ some span
    → MatchesWith span incoming (seek searcher window end_time (suc fuel) none incoming freshlen m)
unfolding seek accept set_self modify ◌>>=◌ pure
seek-match searcher window end_time fuel freshlen incoming span m hit =
    rw hit (record { outcome = refl; before = refl; after = refl; buffer = refl })

-- The call, up to the loop.
module _ (searcher : Searching) (arg : WindowArg) (o : Spawn) (w : World)
    (arrivals : List Arrival) where
  -- The loop on the old buffer, where the thread has been started.
  abbrev pub first_rounds : Outcome (Option ℕ) × Machine
  first_rounds =
      seek searcher (window_or_default arg o.searchwindowsize) (pos 0) (enough (at_end w arrivals))
        none o.buffer (length o.buffer)
        (before_end true (record o { thread_started = true }) w arrivals)

  started-first_rounds :
      (started : Bool)
      → expect_loop searcher none arg
          (before_end true (record o { thread_started = started }) w arrivals)
        ≡ first_rounds
  unfolding expect_loop
  started-first_rounds true = refl
  started-first_rounds false = refl

  pub expect_loop-first_rounds :
      expect_loop searcher none arg (before_end true o w arrivals) ≡ first_rounds
  expect_loop-first_rounds = started-first_rounds o.thread_started
