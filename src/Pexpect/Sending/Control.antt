-- ===== src/Pexpect/Sending/Control.antt =====
-- The control characters of `sendcontrol`.
use custom_shell.Prelude.{ℕ, ◌-◌, ◌==◌, leb, ◌&&◌, Option, none, some, if◌then◌else◌, ◌≡◌, arith}
use custom_shell.Pexpect.Sending.{find_control, control_byte}

-- Caret notation: ^@ to ^_, with the upper case or with the lower case character, and ^?.
abbrev pub caret : ℕ → Option ℕ
caret c =
    if (leb 64 c && leb c 95)
    then some (c - 64)
    else if (leb 96 c && leb c 126)
    then some (c - 96)
    else if c == 63
    then some 127
    else none

-- `sendcontrol` sends the control character of caret notation, and nothing for any other character.
pub control_byte-caret : (c : ℕ) → control_byte c ≡ caret c
unfolding control_byte find_control
control_byte-caret c = ground arith
