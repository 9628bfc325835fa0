-- ===== src/Pexpect/Expect.antt =====
-- `expect_loop` of `spawn` in pexpect-dpty/pexpect.py, over any searcher.
pub mod Received
pub mod Receives
pub mod Outcomes
pub mod Account
pub mod Taken
pub mod Rounds
pub mod Silent
pub mod Alike
use custom_shell.Prelude.{
  ℕ, zero, suc, ◌+◌, ◌-◌, ◌≤◌, Bool, true, false, List, [], ◌∷◌, ◌++◌, Bytes, Option, none, some,
  if◌then◌else◌, take, drop, length, ◌≡◌, not, ◌&&◌,
}
use custom_shell.Prelude.Int.{ℤ, pos, ◌+ℤ◌, is_negative}
use custom_shell.Python.Exec.{Exn, pure, raise, block, try_else, ◌>>=◌, ◌>>◌}
use custom_shell.Pexpect.Machine.{
  Arrival, item, end_mark, late, thread_done, World, After, no_text, matched, eof_class,
  timeout_class, MatchValue, no_match, match_of, eof_match, timeout_match, Spawn, Machine, M, self,
  set_self, world, set_world,
}
use custom_shell.Pexpect.Kernel.{now, sleep}
use custom_shell.Pexpect.Reading.{or_default, time_left, read_nonblocking}

-- What a search finds in a buffer.
pub record Span : Type 0 where
  pub index : ℕ
  pub start : ℕ
  pub end : ℕ
  pub groups : List (ℕ × Bytes)

-- What the loop uses of a searcher, and the law that it relies on; `none` is -1.
pub record Searching : Type 0 where
  pub search : Bytes → ℕ → Option ℕ → Option Span
  pub eof_index : Option ℕ
  pub timeout_index : Option ℕ
  pub within :
      (buffer : Bytes) (freshlen : ℕ) (window : Option ℕ) (f : Span)
      → search buffer freshlen window ≡ some f
      → (f.start ≤ f.end) × (f.end ≤ length buffer)

-- The argument `searchwindowsize`: -1, `None` or a size.
pub data WindowArg : Type 0 where
  default_window : WindowArg
  window_of : Option ℕ → WindowArg

abbrev pub window_or_default : WindowArg → Option ℕ → Option ℕ
window_or_default default_window default = default
window_or_default (window_of w) default = w

-- `if self.drainpty and not self.drainpty_thread.thread_started: self.drainpty_thread.start()`
start_thread : M (Unit {0})
unfolding self set_self
start_thread = do
  s ← self
  if (s.drainpty && not s.thread_started)
      then set_self (λ s. record s { thread_started = true })
      else pure tt

-- `self.drainpty`, which the thread sets to false when its loop ends.
look_at_thread : List Arrival → M Bool
look_at_thread (thread_done ∷ rest) =
    set_world (λ w. record w { arrivals = rest })
    >> set_self (λ s. record s { drainpty = false })
    >> pure false
look_at_thread arrivals = do s ← self; pure s.drainpty

-- `readQueue.get(True, timeout)`; `none` is an item `None` or `Queue.Empty`. A `get` without a timeout
-- is never late, and one for which the world has no more answers goes on waiting.
take_arrival : Option ℤ → List Arrival → M (Option Bytes)
take_arrival timeout [] = set_world (λ w. record w { arrivals = [] }) >> block
take_arrival timeout (item c ∷ rest) =
    set_world (λ w. record w { arrivals = rest }) >> pure (some c)
take_arrival timeout (end_mark ∷ rest) = set_world (λ w. record w { arrivals = rest }) >> pure none
take_arrival none (late ∷ rest) = take_arrival none rest
take_arrival (some t) (late ∷ rest) = set_world (λ w. record w { arrivals = rest }) >> pure none
take_arrival timeout (thread_done ∷ rest) =
    set_self (λ s. record s { drainpty = false }) >> take_arrival timeout rest

-- More text from the thread, or else from the child.
more_from : Bool → Option ℤ → M (Option Bytes)
unfolding take_arrival read_nonblocking sleep self world
more_from true timeout = do w ← world; take_arrival timeout w.arrivals
more_from false timeout = do
  s ← self
  c ← read_nonblocking s.maxread timeout
  sleep 100
  pure (some c)

more : Option ℤ → M (Option Bytes)
unfolding look_at_thread more_from world
more timeout = do w ← world; drain ← look_at_thread w.arrivals; more_from drain timeout

-- `if timeout is not None: timeout = end_time - time.time()`
unfoldable pub next_timeout : ℤ → Option ℤ → M (Option ℤ)
unfolding time_left
next_timeout end_time none = pure none
next_timeout end_time (some t) = do left ← time_left end_time; pure (some left)

-- The body of the `try` behind a search without a match.
pub read_on : ℤ → Option ℤ → M (Option Bytes × Option ℤ)
unfolding more next_timeout
read_on end_time timeout = do c ← more timeout; t ← next_timeout end_time timeout; pure (c, t)

-- `timeout < 0 and timeout is not None`
abbrev pub is_over : Option ℤ → Bool
is_over none = false
is_over (some t) = is_negative t

abbrev pub extend : Bytes → Option Bytes → Bytes
extend incoming none = incoming
extend incoming (some c) = incoming ++ c

abbrev pub fresh : ℕ → Option Bytes → ℕ
fresh freshlen none = freshlen
fresh freshlen (some c) = length c

-- `if index >= 0`, after a search.
accept : Bytes → Span → M (Option ℕ)
unfolding set_self
accept incoming f = do
  set_self (λ s. record s {
    buffer = drop f.end incoming;
    before = some (take f.start incoming);
    after = matched (take (f.end - f.start) (drop f.start incoming));
    match = match_of f.groups;
    match_index = some f.index;
  })
  pure (some f.index)

return_or_raise : Exn → Option ℕ → M (Option ℕ)
return_or_raise e none = raise e
return_or_raise e (some index) = pure (some index)

-- `self.match` at EOF and TIMEOUT, where the list has an entry for it, and where it has none.
abbrev pub class_or_none : MatchValue → Option ℕ → MatchValue
class_or_none v none = no_match
class_or_none v (some index) = v

-- The handlers of the loop.
on_exception : Searching → Bytes → Exn → M (Option ℕ)
unfolding return_or_raise set_self
on_exception searcher incoming Exn.eof =
    set_self (λ s. record s {
      buffer = [];
      before = some incoming;
      after = eof_class;
      match = class_or_none eof_match searcher.eof_index;
      match_index = searcher.eof_index;
    })
    >> return_or_raise Exn.eof searcher.eof_index
on_exception searcher incoming Exn.timeout =
    set_self (λ s. record s {
      buffer = incoming;
      before = some incoming;
      after = timeout_class;
      match = class_or_none timeout_match searcher.timeout_index;
      match_index = searcher.timeout_index;
    })
    >> return_or_raise Exn.timeout searcher.timeout_index
on_exception searcher incoming e =
    set_self (λ s. record s {
      before = some incoming;
      after = no_text;
      match = no_match;
      match_index = none;
    })
    >> raise e

module _ (searcher : Searching) (window : Option ℕ) (end_time : ℤ) where
  -- What a round does after the search, where `again` is the rest of the loop.
  round : (Option ℤ → Bytes → ℕ → M (Option ℕ)) → Option Span → Option ℤ → Bytes → ℕ → M (Option ℕ)
  unfolding accept on_exception read_on try_else
  round again (some f) timeout incoming freshlen = accept incoming f
  round again none timeout incoming freshlen =
      if is_over timeout
      then on_exception searcher incoming Exn.timeout
      else try_else (read_on end_time timeout) (on_exception searcher incoming)
          (λ ct. again ct.1 (extend incoming ct.0) (fresh freshlen ct.0))

  -- The loop, on fuel; `none` means that the fuel has run out.
  pub seek : ℕ → Option ℤ → Bytes → ℕ → M (Option ℕ)
  unfolding round
  seek zero timeout incoming freshlen = pure none
  seek (suc fuel) timeout incoming freshlen =
      round (seek fuel) (searcher.search incoming freshlen window) timeout incoming freshlen

unfoldable pub deadline : Option ℤ → M ℤ
unfolding now
deadline none = pure (pos 0)
deadline (some t) = do start ← now; pure (pos start +ℤ t)

-- Each round of the loop but the last one uses up an answer of `select` or an arrival.
abbrev pub enough : World → ℕ
enough w = suc (length w.selects + length w.arrivals)

unfoldable pub expect_loop : Searching → Option ℤ → WindowArg → M (Option ℕ)
unfolding start_thread deadline seek self world ◌>>=◌
expect_loop searcher timeout arg = do
  start_thread
  s ← self
  w ← world
  let limit = or_default timeout s.timeout
  end_time ← deadline limit
  seek searcher (window_or_default arg s.searchwindowsize) end_time (enough w) limit s.buffer
      (length s.buffer)
