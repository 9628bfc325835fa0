-- ===== src/Pexpect/Kernel.antt =====
-- The calls into the operating system and the clock that `spawn` makes. Each takes the next answer
-- of the world; what happens where there is none is written with each call.
pub mod Frame
pub mod Sends
pub mod Apart
use custom_shell.Prelude.{
  ℕ, ◌+◌, ◌%◌, ◌/◌, Bool, true, false, List, [], ◌∷◌, ◌++◌, Option, none, some, leb, ◌==◌, ◌&&◌,
  if◌then◌else◌,
}
use custom_shell.Python.Exec.{os_error, pure, raise, block, ◌>>=◌, ◌>>◌}
use custom_shell.Pexpect.Machine.{Wait, nothing, changed, World, M, world, set_world}

-- The status words of `wait`, as `os.WIFEXITED` and its companions read them.
abbrev pub w_if_exited : ℕ → Bool
w_if_exited status = status % 128 == 0

abbrev pub w_exit_status : ℕ → ℕ
w_exit_status status = status / 256 % 256

abbrev pub w_if_signaled : ℕ → Bool
w_if_signaled status = leb 1 (status % 128) && leb (status % 128) 126

abbrev pub w_term_sig : ℕ → ℕ
w_term_sig status = status % 128

abbrev pub w_if_stopped : ℕ → Bool
w_if_stopped status = status % 256 == 127

-- `os.waitpid(pid, 0)` waits for a change; with no more answers it waits for ever.
unfoldable pub wait_for_change : List Wait → M ℕ
wait_for_change [] = set_world (λ w. record w { waits = [] }) >> block
wait_for_change (Wait.failed errno ∷ rest) =
    set_world (λ w. record w { waits = rest }) >> raise (os_error errno)
wait_for_change (nothing ∷ rest) = wait_for_change rest
wait_for_change (changed status ∷ rest) = set_world (λ w. record w { waits = rest }) >> pure status

-- `os.waitpid(pid, os.WNOHANG)`; `none` is pid 0. With no more answers the child goes on running.
unfoldable pub take_wait : List Wait → M (Option ℕ)
take_wait [] = pure none
take_wait (Wait.failed errno ∷ rest) =
    set_world (λ w. record w { waits = rest }) >> raise (os_error errno)
take_wait (nothing ∷ rest) = set_world (λ w. record w { waits = rest }) >> pure none
take_wait (changed status ∷ rest) = set_world (λ w. record w { waits = rest }) >> pure (some status)

unfoldable pub waitpid : Bool → M (Option ℕ)
unfolding wait_for_change take_wait world set_world ◌>>=◌
waitpid true = do w ← world; status ← wait_for_change w.waits; pure (some status)
waitpid false = do w ← world; take_wait w.waits

-- `os.kill`: an errno if the kernel refuses. With no more answers it succeeds.
send_signal : ℕ → List (Option ℕ) → M (Unit {0})
send_signal sig [] = set_world (λ w. record w { signals = w.signals ++ sig ∷ [] })
send_signal sig (none ∷ rest) =
    set_world (λ w. record w { kills = rest; signals = w.signals ++ sig ∷ [] })
send_signal sig (some errno ∷ rest) =
    set_world (λ w. record w { kills = rest }) >> raise (os_error errno)

unfoldable pub os_kill : ℕ → M (Unit {0})
unfolding send_signal world set_world ◌>>=◌
os_kill sig = do w ← world; send_signal sig w.kills

-- `time.time()`: the clock moves on before it is read, by 1 where nothing else is said.
pass_time : List ℕ → World → World
pass_time [] w = record w { clock = w.clock + 1 }
pass_time (t ∷ rest) w = record w { clock = w.clock + t; ticks = rest }

unfoldable pub now : M ℕ
unfolding pass_time world set_world ◌>>=◌
now = do set_world (λ w. pass_time w.ticks w); w ← world; pure w.clock

unfoldable pub sleep : ℕ → M (Unit {0})
unfolding set_world
sleep d = set_world (λ w. record w { clock = w.clock + d })

-- `os.close(self.child_fd)`: EBADF if it is closed already.
unfoldable pub os_close : M (Unit {0})
unfolding world set_world ◌>>=◌
os_close = do
  w ← world
  if w.fd_open then set_world (λ w. record w { fd_open = false }) else raise (os_error 9)
