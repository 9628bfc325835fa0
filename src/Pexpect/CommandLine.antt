-- ===== src/Pexpect/CommandLine.antt =====
-- `split_command_line` of pexpect-dpty/pexpect.py; the proofs are in the modules below this one.
pub mod Grammar
pub mod Letters
mod Examples
use custom_shell.Prelude.{ℕ, List, [], ◌∷◌, ◌++◌, Bytes, ◌==◌, if◌then◌else◌}
use custom_shell.Python.Text.{is_space}

abbrev pub backslash : ℕ
backslash = 92

abbrev pub single_quote : ℕ
single_quote = 39

abbrev pub double_quote : ℕ
double_quote = 34

-- `state_basic` to `state_whitespace`.
pub data State : Type 0 where
  basic esc singlequote doublequote whitespace : State

-- The local variables of the loop.
pub record Splitter : Type 0 where
  pub arg_list : List Bytes
  pub arg : Bytes
  pub state : State

-- A blank ends the argument, unless it stands behind another blank.
on_space : State → Splitter → Splitter
on_space whitespace s = s
on_space _ s = record { arg_list = s.arg_list ++ s.arg ∷ []; arg = []; state = whitespace }

-- The branch for `state_basic` and `state_whitespace`.
on_basic : ℕ → Splitter → Splitter
unfolding on_space
on_basic c s =
    if c == backslash
    then record s { state = esc }
    else if c == single_quote
    then record s { state = singlequote }
    else if c == double_quote
    then record s { state = doublequote }
    else if is_space c
    then on_space s.state s
    else record s { arg = s.arg ++ c ∷ []; state = basic }

on_quote : ℕ → ℕ → Splitter → Splitter
on_quote q c s = if c == q then record s { state = basic } else record s { arg = s.arg ++ c ∷ [] }

on_state : State → ℕ → Splitter → Splitter
unfolding on_basic on_quote
on_state basic c s = on_basic c s
on_state whitespace c s = on_basic c s
on_state esc c s = record s { arg = s.arg ++ c ∷ []; state = basic }
on_state singlequote c s = on_quote single_quote c s
on_state doublequote c s = on_quote double_quote c s

-- `for c in command_line`
scan : Bytes → Splitter → Splitter
unfolding on_state
scan [] s = s
scan (c ∷ line) s = scan line (on_state s.state c s)

-- `if arg != '': arg_list.append(arg)`
finish : List Bytes → Bytes → List Bytes
finish args [] = args
finish args (c ∷ arg) = args ++ (c ∷ arg) ∷ []

abbrev pub initial_splitter : Splitter
initial_splitter = record { arg_list = []; arg = []; state = basic }

unfoldable pub split_command_line : Bytes → List Bytes
unfolding scan finish
split_command_line line = let s = scan line initial_splitter in finish s.arg_list s.arg
