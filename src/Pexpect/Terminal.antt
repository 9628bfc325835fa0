-- ===== src/Pexpect/Terminal.antt =====
-- Echo mode and window size of the terminal in pexpect-dpty/pexpect.py: `getecho`, `setecho`,
-- `getwinsize` and `setwinsize`.
pub mod Echo
pub mod Window
mod Examples
use custom_shell.Prelude.{
  ℕ, ◌+◌, ◌-◌, ◌*◌, ◌/◌, ◌%◌, ◌==◌, ◌&&◌, Bool, true, false, [], ◌∷◌, ◌++◌, Bytes, ltb,
  if◌then◌else◌,
}
use custom_shell.Python.Exec.{Exec, struct_error, pure, raise, gets, modify, ◌>>=◌}

-- What the kernel keeps for the terminal: the local flags, and the bytes of its window size.
pub record Terminal : Type 0 where
  pub local_flags : ℕ
  pub window : Bytes

-- `attr[3] & termios.ECHO`, the bit of the value 8.
abbrev pub echo_bit : ℕ → ℕ
echo_bit flags = flags / 8 % 2

-- `flags | termios.ECHO` and `flags & ~termios.ECHO`
abbrev pub with_echo : ℕ → ℕ
with_echo flags = if echo_bit flags == 1 then flags else flags + 8

abbrev pub without_echo : ℕ → ℕ
without_echo flags = if echo_bit flags == 1 then flags - 8 else flags

unfoldable pub getecho : Exec Terminal Bool
unfolding gets ◌>>=◌ pure
getecho = do
  flags ← gets (λ t. t.local_flags)
  if echo_bit flags == 1 then pure true else pure false

unfoldable pub setecho : Bool → Exec Terminal (Unit {0})
unfolding gets modify ◌>>=◌
setecho state = do
  flags ← gets (λ t. t.local_flags)
  modify (λ t. record t { local_flags = if state then with_echo flags else without_echo flags })

-- `struct.pack('H', n)`, the two bytes of an unsigned number of 16 bits.
abbrev pub pack_short : ℕ → Bytes
pack_short n = n % 256 ∷ n / 256 ∷ []

abbrev fits : ℕ → Bool
fits n = ltb n 65536

-- `struct.unpack('HHHH', x)[0:2]`; another length is a `struct.error`.
unpack_size : Bytes → Exec Terminal (ℕ × ℕ)
unpack_size (a ∷ b ∷ c ∷ d ∷ x ∷ y ∷ z ∷ w ∷ []) = pure (a + b * 256, c + d * 256)
unpack_size s = raise struct_error

unfoldable pub getwinsize : Exec Terminal (ℕ × ℕ)
unfolding unpack_size gets ◌>>=◌
getwinsize = do x ← gets (λ t. t.window); unpack_size x

-- A number that does not fit is a `struct.error`, before the call.
unfoldable pub setwinsize : ℕ → ℕ → Exec Terminal (Unit {0})
unfolding modify raise
setwinsize r c =
    if fits r && fits c
    then modify
        (λ t. record t { window = pack_short r ++ pack_short c ++ pack_short 0 ++ pack_short 0 })
    else raise struct_error
