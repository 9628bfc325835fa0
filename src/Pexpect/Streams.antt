-- ===== src/Pexpect/Streams.antt =====
-- `read`, `readline`, `next` and `readlines` of `spawn` in pexpect-dpty/pexpect.py.
pub mod Sought
pub mod Lines
pub mod Sizes
pub mod AllLines
mod Examples
use custom_shell.Prelude.{ℕ, zero, suc, ◌+◌, List, length, [], ◌∷◌, ◌++◌, Bytes, Option, none, some}
use custom_shell.Prelude.Int.{ℤ, pos, negsuc}
use custom_shell.Python.Exec.{type_error, stop_iteration, pure, raise, ◌>>=◌}
use custom_shell.Python.Regex.{literal, any_bytes}
use custom_shell.Pexpect.Machine.{After, matched, Machine, M, self}
use custom_shell.Pexpect.Expect.Taken.{bytes_left}
use custom_shell.Pexpect.Expect.{window_of}
use custom_shell.Pexpect.Patterns.{several, single, plain, eof_type, compiled, expect}

-- `self.before` where a string is wanted.
unfoldable pub before_text : Option Bytes → M Bytes
before_text none = raise type_error
before_text (some s) = pure s

abbrev minus_one : Option ℤ
minus_one = some (negsuc 0)

-- `return self.after`, which is a text after a match.
pub after_text : After → M Bytes
after_text (matched s) = pure s
after_text a = raise type_error

-- The index is 0 for the text, and 1 for EOF. `none`, which is no result of `expect`, cannot occur.
read_result : Option ℕ → M (Option Bytes)
unfolding before_text after_text
read_result none = pure none
read_result (some zero) = do s ← self; a ← after_text s.after; pure (some a)
read_result (some (suc index)) = do s ← self; b ← before_text s.before; pure (some b)

all_result : Option ℕ → M (Option Bytes)
unfolding before_text
all_result none = pure none
all_result (some index) = do s ← self; b ← before_text s.before; pure (some b)

unfoldable pub read : ℤ → M (Option Bytes)
unfolding read_result all_result expect self ◌>>=◌
read (pos zero) = pure (some [])
read (negsuc n) = expect (single eof_type) minus_one (window_of none) >>= all_result
read (pos (suc n)) =
    expect (several (compiled (any_bytes (suc n)) ∷ eof_type ∷ [])) minus_one (window_of none)
    >>= read_result

abbrev pub line_end : Bytes
line_end = 13 ∷ 10 ∷ []

line_result : Option ℕ → M (Option Bytes)
unfolding before_text
line_result none = pure none
line_result (some zero) = do s ← self; b ← before_text s.before; pure (some (b ++ line_end))
line_result (some (suc index)) = do s ← self; b ← before_text s.before; pure (some b)

unfoldable pub readline : ℤ → M (Option Bytes)
unfolding line_result expect self ◌>>=◌
readline (pos zero) = pure (some [])
readline size =
    expect (several (plain (literal line_end) ∷ eof_type ∷ [])) minus_one (window_of none)
    >>= line_result

-- `next` ends an iteration at the empty line.
next_result : Option Bytes → M (Option Bytes)
next_result none = pure none
next_result (some []) = raise stop_iteration
next_result (some (c ∷ s)) = pure (some (c ∷ s))

unfoldable pub next : M (Option Bytes)
unfolding next_result readline ◌>>=◌
next = readline (negsuc 0) >>= next_result

-- A round of the loop of `readlines`, where `again` is the rest of it.
add_read :
    (List Bytes → M (Option (List Bytes))) → List Bytes → Option Bytes → M (Option (List Bytes))
add_read again lines none = pure none
add_read again lines (some []) = pure (some lines)
add_read again lines (some (c ∷ line)) = again (lines ++ (c ∷ line) ∷ [])

-- The loop, on fuel; `none` means that the fuel has run out.
readlines_loop : ℕ → List Bytes → M (Option (List Bytes))
unfolding add_read readline ◌>>=◌
readlines_loop zero lines = pure none
readlines_loop (suc fuel) lines = readline (negsuc 0) >>= add_read (readlines_loop fuel) lines

-- Each round but the last one takes a byte of what is left to read.
unfoldable pub readlines : M (Option (List Bytes))
unfolding readlines_loop
readlines m = readlines_loop (suc (bytes_left m)) [] m
