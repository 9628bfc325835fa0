-- ===== src/Pexpect/CommandLine/Examples.antt =====
-- `split_command_line` on concrete lines, and its theorems at concrete inputs.
use mathlib.Core.List.{flatten, Sublist}
use custom_shell.Prelude.{arith, List, [], ◌∷◌, ◌++◌, codes, ◌≡◌, refl}
use custom_shell.Pexpect.CommandLine.{split_command_line}
use custom_shell.Pexpect.CommandLine.Letters.{flatten-split-sublist}
use custom_shell.Pexpect.CommandLine.Grammar.{
  Piece, plain, escaped, single, double, Item, spell_word, spell_items, split-spell,
}

quotes_and_escapes :
    split_command_line (codes "cp 'a b'  \"c\"\\ d ") ≡ codes "cp" ∷ codes "a b" ∷ codes "c d" ∷ []
unfolding split_command_line
quotes_and_escapes = refl

-- A leading blank gives an empty first argument; an empty last argument is lost.
leading_blank : split_command_line (codes " ls") ≡ [] ∷ codes "ls" ∷ []
unfolding split_command_line
leading_blank = refl

empty_last : split_command_line (codes "echo ''") ≡ codes "echo" ∷ []
unfolding split_command_line
empty_last = refl

abbrev first : List Piece
first = plain b'l' ∷ escaped b's' ∷ []

abbrev items : List Item
items =
    record { blank = 32; blanks = 9 ∷ []; piece = single (codes "a b"); pieces = double [] ∷ [] }
    ∷ []

split-spell_example :
    split_command_line (spell_word first ++ spell_items items []) ≡ codes "ls" ∷ codes "a b" ∷ []
split-spell_example =
    split-spell first items [] ((omega arith, omega arith, omega arith, refl), (tt, tt))
      (record { blank = refl; blanks = (refl, tt); piece = omega arith; pieces = (tt, tt) }, tt) tt

flatten-split-sublist_example : Sublist (flatten (split_command_line (codes "a 'b"))) (codes "a 'b")
flatten-split-sublist_example = flatten-split-sublist (codes "a 'b")
