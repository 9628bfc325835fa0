-- ===== src/Pexpect/Reading.antt =====
-- `__select` and `read_nonblocking` of `spawn` in pexpect-dpty/pexpect.py, with the calls of the
-- operating system that they make.
pub mod Selected
pub mod Account
pub mod Silent
use custom_shell.Prelude.{
  ℕ, Bool, true, false, List, [], ◌∷◌, ◌++◌, Bytes, Option, none, some, if◌then◌else◌, ◌==◌, take,
  drop,
}
use custom_shell.Prelude.Int.{ℤ, pos, negsuc, ◌-ℤ◌, ◌+ℤ◌, is_negative, eqb_ℤ}
use custom_shell.Python.Exec.{
  Exn, os_error, select_error, value_error, pure, raise, block, catch, ◌>>=◌, ◌>>◌,
}
use custom_shell.Pexpect.Machine.{
  Select, ready, expired, Read, chunk, M, self, set_self, world, set_world,
}
use custom_shell.Pexpect.Kernel.{now}
use custom_shell.Pexpect.Lifecycle.{isalive}

abbrev minus_one : ℤ
minus_one = negsuc 0

-- `if timeout == -1: timeout = self.timeout`
abbrev pub or_default : Option ℤ → Option ℤ → Option ℤ
or_default none default = none
or_default (some t) default = if eqb_ℤ t minus_one then default else some t

-- `end_time - time.time()`
unfoldable pub time_left : ℤ → M ℤ
unfolding now
time_left end_time = do t ← now; pure (end_time -ℤ pos t)

-- `select.select` on one descriptor, repeated while a signal interrupts it (EINTR is 4). A negative
-- timeout is refused (EINVAL is 22). With no more answers the wait expires, or never ends.
select_loop : List Select → ℤ → Option ℤ → M Bool
select_loop [] end_time none = block
select_loop [] end_time (some t) = pure false
select_loop (ready ∷ rest) end_time timeout =
    set_world (λ w. record w { selects = rest }) >> pure true
select_loop (expired ∷ rest) end_time none = select_loop rest end_time none
select_loop (expired ∷ rest) end_time (some t) =
    set_world (λ w. record w { selects = rest }) >> pure false
select_loop (Select.failed errno ∷ rest) end_time none =
    let again = select_loop rest end_time none in
    set_world (λ w. record w { selects = rest })
    >> (if errno == 4 then again else raise (select_error errno))
select_loop (Select.failed errno ∷ rest) end_time (some t) =
    let again = select_loop rest end_time in
    set_world (λ w. record w { selects = rest })
    >> (if errno == 4
        then (time_left end_time >>= λ left.
            if is_negative left then pure false else again (some left))
        else raise (select_error errno))

start_select : Option ℤ → List Select → M Bool
start_select none answers = select_loop answers (pos 0) none
start_select (some t) answers =
    if is_negative t
    then raise (select_error 22)
    else (now >>= λ start. select_loop answers (pos start +ℤ t) (some t))

-- `__select`; true if the descriptor can be read.
unfoldable pub select : Option ℤ → M Bool
unfolding start_select select_loop time_left now set_world world ◌>>=◌
select timeout = do w ← world; start_select timeout w.selects

put_back : Bytes → List Read → List Read
put_back [] rest = rest
put_back (c ∷ s) rest = chunk (c ∷ s) ∷ rest

-- `os.read(self.child_fd, size)` gives at most `size` bytes, and the rest the next time.
take_read : ℕ → List Read → M Bytes
take_read size [] = block
take_read size (Read.failed errno ∷ rest) =
    set_world (λ w. record w { reads = rest }) >> raise (os_error errno)
take_read size (chunk s ∷ rest) =
    set_world (λ w. record w { reads = put_back (drop size s) rest }) >> pure (take size s)

unfoldable pub os_read : ℕ → M Bytes
unfolding take_read put_back set_world world ◌>>=◌
os_read size = do w ← world; take_read size w.reads

-- `self.flag_eof = True`, then `raise EOF`.
end_of_file : {A : Type 0} → M A
unfolding set_self
end_of_file = set_self (λ s. record s { flag_eof = true }) >> raise Exn.eof

log_read : Bytes → M (Unit {0})
log_read s = do
  o ← self
  if o.logfile then set_world (λ w. record w { logged = w.logged ++ s ∷ [] }) else pure tt
  if o.logfile_read then set_world (λ w. record w { logged = w.logged ++ s ∷ [] }) else pure tt

-- An empty read is the end of the file, as an `OSError` is.
deliver : Bytes → M Bytes
unfolding log_read end_of_file
deliver [] = end_of_file
deliver (c ∷ s) = log_read (c ∷ s) >> pure (c ∷ s)

on_read_error : Exn → M Bytes
unfolding end_of_file
on_read_error (os_error errno) = end_of_file
on_read_error e = raise e

fetch : Bool → ℕ → M Bytes
unfolding os_read deliver on_read_error catch
fetch true size = catch (os_read size) on_read_error >>= deliver
fetch false size = do alive ← isalive; if alive then raise Exn.timeout else end_of_file

-- The looks at the child before the read.
first_look : Bool → Bool → M (Unit {0})
unfolding end_of_file
first_look false irix_hack = do r ← select (some (pos 0)); if r then pure tt else end_of_file
first_look true true = do
  r ← select (some (pos 2000000))
  if r then pure tt else do alive ← isalive; if alive then pure tt else end_of_file
first_look true false = pure tt

unfoldable pub read_nonblocking : ℕ → Option ℤ → M Bytes
unfolding first_look fetch isalive select self ◌>>=◌
read_nonblocking size timeout = do
  s ← self
  if s.closed then raise value_error else do
    alive ← isalive
    first_look alive s.irix_hack
    r ← select (or_default timeout s.timeout)
    fetch r size
