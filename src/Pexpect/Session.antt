-- ===== src/Pexpect/Session.antt =====
-- `waitnoecho` and `interact` of `spawn` in pexpect-dpty/pexpect.py. The terminal's mode is not kept.
pub mod Escape
mod Examples
use custom_shell.Prelude.{
  ℕ, zero, suc, length, drop, Bool, true, false, List, [], ◌∷◌, ◌++◌, Bytes, Option, none, some,
  ◌==◌, not, if◌then◌else◌,
}
use custom_shell.Prelude.Int.{ℤ}
use custom_shell.Python.Exec.{os_error, termios_error, pure, raise, block, ◌>>=◌, ◌>>◌}
use custom_shell.Pexpect.Machine.{Read, chunk, World, M, self, set_self, world, set_world}
use custom_shell.Pexpect.Kernel.{sleep}
use custom_shell.Pexpect.Lifecycle.{isalive}
use custom_shell.Pexpect.Reading.{or_default}
use custom_shell.Pexpect.Expect.{next_timeout, is_over, deadline}
use custom_shell.Pexpect.Sending.{os_write}

-- The loop of `waitnoecho`, over what `getecho` answers, with `none` for the `termios.error` that
-- `tcgetattr` raises; where the answers end, it goes on waiting.
wait_echo : ℤ → List (Option Bool) → Option ℤ → M Bool
unfolding next_timeout sleep
wait_echo end_time [] timeout = block
wait_echo end_time (none ∷ echoes) timeout = raise termios_error
wait_echo end_time (some false ∷ echoes) timeout = pure true
wait_echo end_time (some true ∷ echoes) timeout =
    if is_over timeout
    then pure false
    else (next_timeout end_time timeout >>= λ t. sleep 100000 >> wait_echo end_time echoes t)

unfoldable pub waitnoecho : List (Option Bool) → Option ℤ → M Bool
unfolding wait_echo deadline self ◌>>=◌
waitnoecho echoes timeout = do
  s ← self
  end_time ← deadline (or_default timeout s.timeout)
  wait_echo end_time echoes (or_default timeout s.timeout)

-- `i = text.rfind(escape_character)`, then `text[:i]`; `none` is -1.
put_first : ℕ → ℕ → Option Bytes → Option Bytes
put_first escape c (some s) = some (c ∷ s)
put_first escape c none = if c == escape then some [] else none

unfoldable pub before_last : ℕ → Bytes → Option Bytes
unfolding put_first
before_last escape [] = none
before_last escape (c ∷ text) = put_first escape c (before_last escape text)

-- `__interact_writen`; each round writes at least a byte, so that there are at most as many as bytes.
interact_writen : ℕ → Bytes → M (Unit {0})
unfolding isalive os_write
interact_writen zero text = pure tt
interact_writen (suc fuel) [] = pure tt
interact_writen (suc fuel) (c ∷ text) = do
  alive ← isalive
  if alive then (os_write (c ∷ text) >>= λ n. interact_writen fuel (drop n (c ∷ text))) else pure tt

-- What one `select` finds ready, with what `os.read` then gives.
pub record Ready : Type 0 where
  pub child : Option Read
  pub user : Option Read

show : Bytes → M (Unit {0})
unfolding self set_world
show text = do
  o ← self
  if o.logfile then set_world (λ w. record w { logged = w.logged ++ text ∷ [] }) else pure tt
  set_world (λ w. record w { screen = w.screen ++ text ∷ [] })

from_child : (Bytes → Bytes) → Option Read → M (Unit {0})
unfolding show
from_child output_filter none = pure tt
from_child output_filter (some (Read.failed errno)) = raise (os_error errno)
from_child output_filter (some (chunk text)) = show (output_filter text)

-- The text behind the last escape character is dropped, and the loop ends: `true`.
send_keys : Bytes → Option Bytes → M Bool
unfolding interact_writen
send_keys text none = interact_writen (length text) text >> pure false
send_keys text (some front) = interact_writen (length front) front >> pure true

from_user : ℕ → (Bytes → Bytes) → Option Read → M Bool
unfolding send_keys before_last
from_user escape input_filter none = pure false
from_user escape input_filter (some (Read.failed errno)) = raise (os_error errno)
from_user escape input_filter (some (chunk text)) =
    send_keys (input_filter text) (before_last escape (input_filter text))

-- `__interact_copy`; a missing filter is the identity. Where the answers end, `select` goes on waiting.
copy_loop : ℕ → (Bytes → Bytes) → (Bytes → Bytes) → List Ready → M (Unit {0})
unfolding from_child from_user isalive
copy_loop escape input_filter output_filter [] =
    isalive >>= λ alive. if alive then block else pure tt
copy_loop escape input_filter output_filter (r ∷ rounds) =
    let rest = copy_loop escape input_filter output_filter rounds in
    isalive >>= λ alive.
    if alive
    then (from_child output_filter r.child
        >> (from_user escape input_filter r.user >>= λ over. if over then pure tt else rest))
    else pure tt

unfoldable pub interact : ℕ → (Bytes → Bytes) → (Bytes → Bytes) → List Ready → M (Unit {0})
unfolding copy_loop self set_self set_world ◌>>=◌
interact escape input_filter output_filter rounds = do
  s ← self
  set_world (λ w. record w { screen = w.screen ++ s.buffer ∷ [] })
  set_self (λ o. record o { buffer = [] })
  copy_loop escape input_filter output_filter rounds
