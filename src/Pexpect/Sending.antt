-- ===== src/Pexpect/Sending.antt =====
-- `send` and what is built on it, in `spawn` of pexpect-dpty/pexpect.py.
pub mod Control
pub mod Writes
pub mod Quiet
mod Examples
use custom_shell.Prelude.{
  ℕ, suc, take, ◌+◌, ◌-◌, ◌==◌, leb, ◌&&◌, List, [], ◌∷◌, ◌++◌, Bytes, Option, none, some, length,
  if◌then◌else◌,
}
use custom_shell.Python.Exec.{os_error, termios_error, pure, raise, block, ◌>>=◌, ◌>>◌}
use custom_shell.Pexpect.Machine.{
  Write, accepted, stuck, World, M, self, set_self, world, set_world,
}
use custom_shell.Pexpect.Kernel.{sleep}

-- `os.write(self.child_fd, s)`: EBADF if it is closed, or as the world answers; `accepted n` has room
-- for n + 1 bytes. With no more answers all of the text is written.
put_text : Bytes → List Write → M ℕ
put_text s [] =
    set_world (λ v. record v { written = v.written ++ s ∷ []; writes = [] }) >> pure (length s)
put_text s (accepted n ∷ rest) =
    set_world (λ v. record v { written = v.written ++ take (suc n) s ∷ []; writes = rest })
    >> pure (length (take (suc n) s))
put_text s (Write.failed errno ∷ rest) =
    set_world (λ v. record v { writes = rest }) >> raise (os_error errno)
put_text s (stuck ∷ rest) = set_world (λ v. record v { writes = rest }) >> block

unfoldable pub os_write : Bytes → M ℕ
unfolding put_text
os_write s = do w ← world; if w.fd_open then put_text s w.writes else raise (os_error 9)

log_send : Bytes → M (Unit {0})
log_send s = do
  o ← self
  if o.logfile then set_world (λ w. record w { logged = w.logged ++ s ∷ [] }) else pure tt
  if o.logfile_send then set_world (λ w. record w { logged = w.logged ++ s ∷ [] }) else pure tt

unfoldable pub send : Bytes → M ℕ
unfolding os_write log_send sleep self world set_world ◌>>=◌
send s = do o ← self; sleep o.delaybeforesend; log_send s; os_write s

unfoldable pub sendline : Bytes → M ℕ
unfolding send
sendline s = do n ← send s; k ← send (10 ∷ []); pure (n + k)

unfoldable pub write : Bytes → M (Unit {0})
unfolding send
write s = do send s; pure tt

unfoldable pub writelines : List Bytes → M (Unit {0})
unfolding write
writelines [] = pure tt
writelines (s ∷ sequence) = do write s; writelines sequence

abbrev pub lower : ℕ → ℕ
lower c = if (leb 65 c && leb c 90) then c + 32 else c

-- The dictionary `d`.
abbrev pub control_table : List (ℕ × ℕ)
control_table =
    (b'@', 0)
    ∷ (b'`', 0)
    ∷ (b'[', 27)
    ∷ (b'{', 27)
    ∷ (b'\\', 28)
    ∷ (b'|', 28)
    ∷ (b']', 29)
    ∷ (b'}', 29)
    ∷ (b'^', 30)
    ∷ (b'~', 30)
    ∷ (b'_', 31)
    ∷ (b'?', 127)
    ∷ []

find_control : ℕ → List (ℕ × ℕ) → Option ℕ
find_control c [] = none
find_control c ((k, v) ∷ d) = if c == k then some v else find_control c d

-- The byte that `sendcontrol` sends.
unfoldable pub control_byte : ℕ → Option ℕ
unfolding find_control
control_byte c =
    let a = lower c in
    if (leb 97 a && leb a 122) then some (a - 97 + 1) else find_control a control_table

send_byte : Option ℕ → M ℕ
unfolding send
send_byte none = pure 0
send_byte (some c) = send (c ∷ [])

unfoldable pub sendcontrol : ℕ → M ℕ
unfolding send_byte control_byte
sendcontrol c = send_byte (control_byte c)

-- A character of the terminal: `termios` has no such constant, or `tcgetattr` gives the character, or it
-- fails, as it does for a closed descriptor.
pub data Special : Type 0 where
  undefined : Special
  char : ℕ → Special
  unknown : Special

unfoldable pub tcgetattr : Special → ℕ → M ℕ
unfolding world ◌>>=◌
tcgetattr undefined default = pure default
tcgetattr (char c) default = do w ← world; if w.fd_open then pure c else raise termios_error
tcgetattr unknown default = raise termios_error

-- `sendeof` and `sendintr` send the terminal's character, where it has one.
unfoldable pub sendeof : Special → M ℕ
unfolding send tcgetattr
sendeof veof = do c ← tcgetattr veof 4; send (c ∷ [])

unfoldable pub sendintr : Special → M ℕ
unfolding send tcgetattr
sendintr vintr = do c ← tcgetattr vintr 3; send (c ∷ [])
