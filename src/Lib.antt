-- ===== src/Lib.antt =====
-- A model of the Python code that drives and checks the custom shell: the repository's own version of
-- pexpect with a thread that drains the terminal (pexpect-dpty/pexpect.py), and the checks of
-- processes (pexpect-dpty/proc_check.py), with the helpers of the test scripts (tests/testutils.py),
-- what they know of the shell's output (src/output_spec.py), and the driver that runs and grades the
-- tests (tests/stdriver.py). A test script starts the shell in a child process through
-- `spawn`, sends it lines with `sendline`, waits for its output with `expect` and its relatives, and
-- looks into /proc for the processes that the shell has started.
--
-- Prelude: shared names; lists and bytes over the native numbers, integers, Boolean tests.
-- Python: what the program uses of the language. Python/Text has `str.find` and `isspace`,
-- Python/Regex a backtracking matcher for the expressions that are used (with the relation that an
-- expression denotes in Language and the usual classes in Classes and Literal), Python/Exec methods that
-- change an object and may raise: state passing with an outcome, which is a value, an exception, or a
-- call that never returns. What was changed before an exception stays changed. Python/Exec/Keeps has
-- rules for invariants, Python/Exec/Triple rules for pre- and postconditions.
--
-- Pexpect/CommandLine: `split_command_line`. Pexpect/Which: `which`; `os.access` is an argument.
-- Pexpect/Searcher and Pexpect/SearcherRe: the classes `searcher_string` and `searcher_re`.
-- Pexpect/Machine: the attributes of a `spawn`, and the world that its methods call. The world is
-- a record of what the operating system will answer, in order (`waitpid`, `select`, `os.read`,
-- `os.kill`, the clock, the items of the thread's queue), and of what the program has done to it
-- (signals, writes, logs). Theorems hold for every world, that is for every sequence of answers.
-- Pexpect/Kernel: the calls themselves; the comment of each says what happens where the answers end.
-- Pexpect/Lifecycle: `isalive`, `kill`, `terminate`, `wait`, `close` and `__del__`;
-- Lifecycle/Ages has the state machine that they follow.
-- Pexpect/Reading: `__select` and `read_nonblocking`.
-- Pexpect/Expect: `expect_loop`, over an interface `Searching` that both searchers fill
-- (Pexpect/Patterns, with `compile_pattern_list`, `expect_list`, `expect_exact` and `expect`);
-- Expect/Taken says how much text a method has taken, and how much is left; Expect/Silent that the loop
-- writes nothing; Expect/Alike when two searchers lead to the same, which Patterns/Literals applies to
-- plain texts and their literal expressions.
-- Pexpect/Dialogue: a test script as a list of calls of `sendline` and `expect_loop`.
-- Pexpect/Streams: `read`, `readline`, `next` and `readlines`, over a pair of an expression and EOF.
-- Pexpect/Sending: `send` and what is built on it.
-- Pexpect/Draining: `Drainpty_Thread.run` beside the reads of `expect_loop`, as steps in any order.
-- Draining/Shown makes the arrivals of Pexpect/Machine of such a run; Draining/Reached takes the loop
-- through them, and Draining/Follows runs the code of `expect_loop` on them.
-- Pexpect/Session: `waitnoecho` and `interact`. Pexpect/Terminal: echo mode and window size.
-- Pexpect/Starting: `_spawn` and the end of the constructor, where `os.access`, the environment and the
-- answer of the fork are arguments and the result is what a child does. Pexpect/ForkPty: `__fork_pty`.
-- Pexpect/Running: `run`, where a callback is any method of the child that returns a reply.
-- ProcCheck: all of proc_check.py, over the contents of /proc.
-- OutputSpec: the constants of src/output_spec.py. Testutils: the helpers of tests/testutils.py, of
-- which the console is a `spawn`. Driver: the test lists and the grades of tests/stdriver.py.
-- Scripts: the test scripts that only talk to the console, as lists of calls of the helpers.
--
-- Fuel: `seek`, the loop of `expect_loop`, runs on one more than the number of the answers of
-- `select` and of the queue that are left, because each round but the last uses one up; that it never
-- runs out is part of the theorem on `expect_loop`. `readlines` runs on one more than the number of
-- bytes that are left to read, because each line takes one; that this is enough is part of its theorem.
-- `run` takes its fuel as an argument, since with a pattern that matches an empty text it need not end;
-- its theorem says when it does. A repetition of Python/Regex runs on the length of
-- the text that is left, because a round that matches no byte ends it. All other loops are structural.
--
-- A string among the patterns of `expect` stands as what `re.compile` gives of it, with IGNORECASE
-- and without; the console of the tests, a fresh `spawn`, leaves `ignorecase` off. `os.write` takes
-- as much as the world says. Times are counted in microseconds. The log files' names, the text of
-- messages and what the checks and the driver print are not kept. Not modelled: what the thread
-- changes of the object beside the queue and `drainpty` (`flag_eof`, and what its own `isalive`
-- records); `__str__` and the exceptions' own methods, which make texts for people; `fileno`, `flush`
-- and `isatty`, which only pass the descriptor on; the mode of the terminal around `interact`; the
-- test scripts that look at files, processes or the status of the shell between their calls, and of
-- their helpers those that set up files and the process (`setup_tests`, `make_test_program`); the
-- options and the printing of the driver; the unchanged upstream files FSM.py, ANSI.py, screen.py,
-- pxssh.py and fdpexpect.py, which nothing imports; and the C code of the shell.
pub mod Prelude
pub mod Python
pub mod Pexpect
pub mod ProcCheck
pub mod Scripts
pub mod Driver
pub mod OutputSpec
pub mod Testutils
