-- ===== src/Pexpect/CommandLine/Letters.antt =====
-- Where the bytes of the arguments come from.
use mathlib.Core.List.{flatten, Sublist}
use mathlib.Core.List.Sublist
use custom_shell.Prelude.{
  flatten-push, ℕ, List, [], ◌∷◌, ◌++◌, append_assoc, append-nil, Bytes, ◌≡◌, ◌⊎◌, inl, inr, refl,
  arith,
}
use custom_shell.Pexpect.CommandLine.{
  State, basic, whitespace, esc, singlequote, doublequote, Splitter, on_space, on_basic, on_quote,
  on_state, scan, finish, initial_splitter, split_command_line,
}

-- The bytes collected so far, in order.
abbrev collected : Splitter → Bytes
collected s = flatten s.arg_list ++ s.arg

collected-on_space : (st : State) (s : Splitter) → (collected (on_space st s) ≡ collected s)
unfolding on_space
collected-on_space whitespace s = refl
collected-on_space _ s = rw (append-nil, flatten-push)

-- A round of the loop collects its byte or drops it.
abbrev Keeps : ℕ → Splitter → Splitter → Type 0
Keeps c s t = (collected t ≡ collected s) ⊎ (collected t ≡ collected s ++ c ∷ [])

Keeps-on_basic : (c : ℕ) (s : Splitter) → Keeps c s (on_basic c s)
unfolding on_basic
Keeps-on_basic c s =
    ground (arith, collected-on_space s.state s, append_assoc (flatten s.arg_list) s.arg (c ∷ []))

Keeps-on_quote : (q c : ℕ) (s : Splitter) → Keeps c s (on_quote q c s)
unfolding on_quote
Keeps-on_quote q c s = ground (arith, append_assoc (flatten s.arg_list) s.arg (c ∷ []))

Keeps-on_state : (st : State) (c : ℕ) (s : Splitter) → Keeps c s (on_state st c s)
unfolding on_state on_basic
Keeps-on_state basic c s = Keeps-on_basic c s
Keeps-on_state whitespace c s = Keeps-on_basic c s
Keeps-on_state esc c s = inr (rw append_assoc)
Keeps-on_state singlequote c s = Keeps-on_quote _ c s
Keeps-on_state doublequote c s = Keeps-on_quote _ c s

Keeps-sublist :
    (c : ℕ) (s t : Splitter) (x line : Bytes)
    → Keeps c s t
    → Sublist x (collected t ++ line)
    → Sublist x (collected s ++ c ∷ line)
Keeps-sublist c s t x line (inl e) h =
    Sublist.trans (rw e at h)
      (Sublist.append (Sublist.refl (collected s)) (Sublist.cons c (Sublist.refl line)))
Keeps-sublist c s t x line (inr e) h = rw (e, append_assoc (collected s) (c ∷ []) line) at h

scan-sublist :
    (line : Bytes) (s : Splitter) → Sublist (collected (scan line s)) (collected s ++ line)
unfolding scan
scan-sublist [] s = rw (append-nil (collected s)) (Sublist.refl _)
scan-sublist (c ∷ line) s =
    Keeps-sublist c s (on_state s.state c s) _ line (Keeps-on_state s.state c s)
      (scan-sublist line (on_state s.state c s))

flatten-finish : (args : List Bytes) (a : Bytes) → flatten (finish args a) ≡ flatten args ++ a
unfolding finish
flatten-finish args [] = rw append-nil
flatten-finish args (c ∷ a) = flatten-push args (c ∷ a)

-- The arguments, put end to end, are the command line with some bytes left out: splitting invents
-- no byte, repeats none and keeps their order, whatever the line.
pub flatten-split-sublist : (line : Bytes) → Sublist (flatten (split_command_line line)) line
unfolding split_command_line flatten
flatten-split-sublist line = rw flatten-finish (scan-sublist line initial_splitter)
