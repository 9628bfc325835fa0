-- ===== src/Pexpect/ForkPty.antt =====
-- `__fork_pty` and `__pty_make_controlling_tty` of pexpect-dpty/pexpect.py, which stand in for
-- `pty.fork` on Solaris. The answers of `os.openpty` and `os.fork` are arguments.
pub mod Balance
mod Examples
use custom_shell.Prelude.{
  ℕ, Bool, true, false, List, [], ◌∷◌, ◌++◌, Bytes, codes, ◌||◌, not, if◌then◌else◌,
}
use custom_shell.Prelude.Int.{ℤ, pos, negsuc, is_negative, eqb_ℤ, ◌-ℤ◌}
use custom_shell.Python.Exec.{
  Exn, os_error, pexpect_error, Exec, pure, raise, gets, modify, catch, ◌>>=◌, ◌>>◌,
}

-- An answer to `os.open`: a descriptor, or an errno.
pub data Open : Type 0 where
  opened : ℤ → Open
  failed : ℕ → Open

-- The answers that `os.open` will give, and what has been done: the files that were opened, the
-- descriptors that were closed and those that were put in the place of a standard one, and whether
-- the process leads a session of its own.
pub record Files : Type 0 where
  pub answers : List Open
  pub opens : List (Bytes × ℤ)
  pub closes : List ℤ
  pub standard : List (ℤ × ℕ)
  pub session : Bool

-- `os.open`; where there are no more answers there is no such file.
take_open : Bytes → List Open → Exec Files ℤ
take_open path [] = raise (os_error 2)
take_open path (opened fd ∷ rest) = do
  modify (λ f. record f { answers = rest; opens = f.opens ++ (path, fd) ∷ [] })
  pure fd
take_open path (failed errno ∷ rest) =
    modify (λ f. record f { answers = rest }) >> raise (os_error errno)

os_open : Bytes → Exec Files ℤ
unfolding take_open gets ◌>>=◌
os_open path = do answers ← gets (λ f. f.answers); take_open path answers

close_fd : ℤ → Exec Files (Unit {0})
unfolding modify
close_fd fd = modify (λ f. record f { closes = f.closes ++ fd ∷ [] })

abbrev pub dev_tty : Bytes
dev_tty = codes "/dev/tty"

-- Off the terminal, if there is one.
detach : Exec Files (Unit {0})
unfolding os_open close_fd
detach = do fd ← os_open dev_tty; if is_negative fd then pure tt else close_fd fd

refuse : ℤ → Exec Files (Unit {0})
unfolding close_fd
refuse fd = if is_negative fd then pure tt else close_fd fd >> raise pexpect_error

-- The body of the `try`: the terminal must be gone.
pub still_attached : Exec Files (Unit {0})
unfolding os_open refuse
still_attached = os_open dev_tty >>= refuse

-- A file that must open.
require : Bytes → Exec Files (Unit {0})
unfolding os_open close_fd
require path = do fd ← os_open path; if is_negative fd then raise pexpect_error else close_fd fd

-- `except:`, which takes every exception.
pub disregard : Exn → Exec Files (Unit {0})
disregard e = pure tt

unfoldable pub make_controlling_tty : Bytes → Exec Files (Unit {0})
unfolding detach still_attached require disregard catch modify ◌>>=◌
make_controlling_tty child_name = do
  detach
  modify (λ f. record f { session = true })
  catch still_attached disregard
  require child_name
  require dev_tty

-- `os.dup2`
duplicate : ℤ → ℕ → Exec Files (Unit {0})
unfolding modify
duplicate fd target = modify (λ f. record f { standard = f.standard ++ (fd, target) ∷ [] })

-- `child_fd > 2`
abbrev is_above_two : ℤ → Bool
is_above_two fd = not (is_negative (fd -ℤ pos 3))

-- The child's side.
in_new_child : ℤ → ℤ → Bytes → Exec Files (Unit {0})
unfolding make_controlling_tty duplicate close_fd ◌>>=◌
in_new_child parent_fd child_fd child_name = do
  close_fd parent_fd
  make_controlling_tty child_name
  duplicate child_fd 0
  duplicate child_fd 1
  duplicate child_fd 2
  if is_above_two child_fd then close_fd child_fd else pure tt

-- `__fork_pty`, where `os.openpty` has given two descriptors and `os.fork` a pid.
unfoldable pub fork_pty : ℤ → ℤ → ℤ → Bytes → Exec Files (ℤ × ℤ)
unfolding in_new_child close_fd ◌>>=◌
fork_pty parent_fd child_fd pid child_name = do
  if (is_negative parent_fd || is_negative child_fd) then raise pexpect_error else pure tt
  if is_negative pid then raise pexpect_error else pure tt
  if eqb_ℤ pid (pos 0) then in_new_child parent_fd child_fd child_name else close_fd child_fd
  pure (pid, parent_fd)
