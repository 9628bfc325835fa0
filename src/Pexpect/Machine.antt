-- ===== src/Pexpect/Machine.antt =====
-- The attributes of the class `spawn` of pexpect-dpty/pexpect.py, and the world that its methods
-- call: the operating system's answers, in the order in which they are given, and what the program
-- has done to it.
use custom_shell.Prelude.{ℕ, Bool, true, false, List, [], Bytes, Option, none}
use custom_shell.Prelude.Int.{ℤ}
use custom_shell.Python.Exec.{Exec, gets, modify}

-- An answer to `os.waitpid`: an errno, no child to report (pid 0), or the status of the child.
pub data Wait : Type 0 where
  failed : ℕ → Wait
  nothing : Wait
  changed : ℕ → Wait

-- An answer to `select.select` for one descriptor that is read.
pub data Select : Type 0 where
  ready : Select
  expired : Select
  failed : ℕ → Select

-- An answer to `os.read`.
pub data Read : Type 0 where
  chunk : Bytes → Read
  failed : ℕ → Read

-- An answer to `os.write`: as much of the text as there is room for, which is at least a byte, an errno,
-- or no return.
pub data Write : Type 0 where
  accepted : ℕ → Write
  failed : ℕ → Write
  stuck : Write

-- What the program sees of the drain thread, in order: an item of `readQueue` (a text, or the
-- `None` behind the last one), a `get` that finds nothing in time, or the end of the thread's loop,
-- which sets `drainpty` to false.
pub data Arrival : Type 0 where
  item : Bytes → Arrival
  end_mark : Arrival
  late : Arrival
  thread_done : Arrival

-- Time is counted in microseconds; `ticks` is how much passes before each reading of the clock.
pub record World : Type 0 where
  pub waits : List Wait
  pub selects : List Select
  pub reads : List Read
  pub arrivals : List Arrival
  pub kills : List (Option ℕ)
  pub writes : List Write
  pub clock : ℕ
  pub ticks : List ℕ
  pub fd_open : Bool
  pub signals : List ℕ
  pub written : List Bytes
  pub logged : List Bytes
  pub screen : List Bytes

-- `self.after`: `None`, the matched text, or one of the two exception classes.
pub data After : Type 0 where
  no_text : After
  matched : Bytes → After
  eof_class : After
  timeout_class : After

-- `self.match`: `None`, a match with its groups, the last one first, or one of the two classes. For
-- plain texts it is the text, which is also in `after`, and has no groups.
pub data MatchValue : Type 0 where
  no_match : MatchValue
  match_of : List (ℕ × Bytes) → MatchValue
  eof_match : MatchValue
  timeout_match : MatchValue

-- `command`, `args` and `name` are what `_spawn` makes of its arguments. `child_fd` is `none` for -1; a log is there or not.
-- `thread_started` and `keep_reading` are attributes of the drain thread.
pub record Spawn : Type 0 where
  pub command : Option Bytes
  pub args : List Bytes
  pub name : Bytes
  pub drainpty : Bool
  pub thread_started : Bool
  pub keep_reading : Bool
  pub buffer : Bytes
  pub before : Option Bytes
  pub after : After
  pub match : MatchValue
  pub match_index : Option ℕ
  pub terminated : Bool
  pub exitstatus : Option ℕ
  pub signalstatus : Option ℕ
  pub status : Option ℕ
  pub flag_eof : Bool
  pub pid : Option ℕ
  pub child_fd : Option ℕ
  pub timeout : Option ℤ
  pub logfile : Bool
  pub logfile_read : Bool
  pub logfile_send : Bool
  pub maxread : ℕ
  pub searchwindowsize : Option ℕ
  pub delaybeforesend : ℕ
  pub delayafterclose : ℕ
  pub delayafterterminate : ℕ
  pub closed : Bool
  pub irix_hack : Bool
  pub ignorecase : Bool

pub record Machine : Type 0 where
  pub self : Spawn
  pub world : World

abbrev pub M : Type 0 → Type 0
M A = Exec Machine A

-- `__init__` with `drainpty=drainpty`, up to the call of `_spawn`; the descriptor is -1, and the pid
-- is `None` there.
unfoldable pub new_spawn : Option ℤ → ℕ → Option ℕ → Bool → Bool → Spawn
new_spawn timeout maxread searchwindowsize logfile drainpty = record {
  command = none;
  args = [];
  name = [];
  drainpty = drainpty;
  thread_started = false;
  keep_reading = drainpty;
  buffer = [];
  before = none;
  after = no_text;
  match = no_match;
  match_index = none;
  terminated = true;
  exitstatus = none;
  signalstatus = none;
  status = none;
  flag_eof = false;
  pid = none;
  child_fd = none;
  timeout = timeout;
  logfile = logfile;
  logfile_read = false;
  logfile_send = false;
  maxread = maxread;
  searchwindowsize = searchwindowsize;
  delaybeforesend = 50000;
  delayafterclose = 100000;
  delayafterterminate = 100000;
  closed = true;
  irix_hack = false;
  ignorecase = false;
}

unfoldable pub self : M Spawn
unfolding gets
self = gets (λ m. m.self)

unfoldable pub set_self : (Spawn → Spawn) → M (Unit {0})
unfolding modify
set_self f = modify (λ m. record m { self = f m.self })

unfoldable pub world : M World
unfolding gets
world = gets (λ m. m.world)

unfoldable pub set_world : (World → World) → M (Unit {0})
unfolding modify
set_world f = modify (λ m. record m { world = f m.world })
