-- ===== src/Pexpect/Draining.antt =====
-- The class `Drainpty_Thread` of pexpect-dpty/pexpect.py beside the reads of `expect_loop`: two
-- threads that share a queue and two flags, as steps in any order. A read of the pty and a call of
-- the queue are one step each; nobody calls `stop` while the loop runs.
pub mod Accounted
pub mod Loss
pub mod Drains
pub mod Shown
pub mod Reached
pub mod Follows
mod Examples
use custom_shell.Prelude.{Bool, true, false, List, [], ◌∷◌, ◌++◌, Bytes, Option, none, some, ◌≡◌}

-- Where the thread stands in `run`: at the test of the loop, in `read_nonblocking`, behind the loop,
-- or at its end.
pub data Thread : Type 0 where
  testing reading leaving done : Thread

-- `pty` holds what the child has written and nobody has read, with the end of the file behind it;
-- `incoming` and `ended` belong to `expect_loop`: its text, and whether it has met EOF.
pub record Shared : Type 0 where
  pub pty : List Bytes
  pub queue : List (Option Bytes)
  pub keep_reading : Bool
  pub drainpty : Bool
  pub thread : Thread
  pub incoming : Bytes
  pub ended : Bool

-- `while self.keepReading`
abbrev pub after_test : Bool → Shared → Shared
after_test true s = record s { thread = reading }
after_test false s = record s { thread = leaving }

-- `read_nonblocking`, and then `readQueue.put(str)` or the handler of EOF.
abbrev pub after_read : List Bytes → Shared → Shared
after_read [] s = record s { keep_reading = false; queue = s.queue ++ none ∷ []; thread = testing }
after_read (c ∷ rest) s = record s { pty = rest; queue = s.queue ++ some c ∷ []; thread = testing }

-- `self.pexpect_inst.drainpty = False`
abbrev pub after_loop : Shared → Shared
after_loop s = record s { drainpty = false; thread = done }

-- One read of `expect_loop`, by the value of `self.drainpty`.
abbrev pub after_more : Bool → List (Option Bytes) → List Bytes → Shared → Shared
after_more true [] pty s = s
after_more true (some c ∷ rest) pty s = record s { queue = rest; incoming = s.incoming ++ c }
after_more true (none ∷ rest) pty s = record s { queue = rest }
after_more false queue [] s = record s { ended = true }
after_more false queue (c ∷ rest) s = record s { pty = rest; incoming = s.incoming ++ c }

pub data Step : Shared → Shared → Type 0 where
  thread_tests : (s : Shared) → s.thread ≡ testing → Step s (after_test s.keep_reading s)
  thread_reads : (s : Shared) → s.thread ≡ reading → Step s (after_read s.pty s)
  thread_times_out : (s : Shared) → s.thread ≡ reading → Step s (record s { thread = testing })
  thread_ends : (s : Shared) → s.thread ≡ leaving → Step s (after_loop s)
  loop_reads : (s : Shared) → s.ended ≡ false → Step s (after_more s.drainpty s.queue s.pty s)

pub data Run : Shared → Shared → Type 0 where
  stay : (s : Shared) → Run s s
  more_steps : {s t u : Shared} → Step s t → Run t u → Run s u

-- The thread has just been started by `expect_loop`.
abbrev pub just_started : List Bytes → Shared
just_started pty = record {
  pty = pty;
  queue = [];
  keep_reading = true;
  drainpty = true;
  thread = testing;
  incoming = [];
  ended = false;
}
