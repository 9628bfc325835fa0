-- ===== src/Pexpect/CommandLine/Grammar.antt =====
-- Command lines as words of plain, escaped and quoted pieces between blanks, and what
-- `split_command_line` makes of them.
use custom_shell.Prelude.{
  ℕ, true, false, List, [], ◌∷◌, ◌++◌, append_assoc, append-nil, Bytes, ==_refl, ◌≡◌, ◌≢◌, refl,
  All, arith,
}
use custom_shell.Python.Text.{is_space}
use custom_shell.Pexpect.CommandLine.{
  backslash, single_quote, double_quote, State, basic, whitespace, singlequote, doublequote,
  Splitter, on_quote, on_state, scan, finish, split_command_line,
}

pub data Piece : Type 0 where
  plain : ℕ → Piece
  escaped : ℕ → Piece
  single : Bytes → Piece
  double : Bytes → Piece

abbrev pub Word : Type 0
Word = List Piece

-- What a piece looks like on the command line, and what it stands for.
abbrev pub spell : Piece → Bytes
spell (plain c) = c ∷ []
spell (escaped c) = backslash ∷ c ∷ []
spell (single s) = single_quote ∷ (s ++ single_quote ∷ [])
spell (double s) = double_quote ∷ (s ++ double_quote ∷ [])

abbrev pub value : Piece → Bytes
value (plain c) = c ∷ []
value (escaped c) = c ∷ []
value (single s) = s
value (double s) = s

abbrev pub spell_word : Word → Bytes
spell_word [] = []
spell_word (p ∷ w) = spell p ++ spell_word w

abbrev pub value_word : Word → Bytes
value_word [] = []
value_word (p ∷ w) = value p ++ value_word w

-- A plain byte is no blank and none of `\`, `'` and `"`; a quoted text lacks its quote.
abbrev pub IsPiece : Piece → Type 0
IsPiece (plain c) = (c ≢ backslash) × (c ≢ single_quote) × (c ≢ double_quote) × (is_space c ≡ false)
IsPiece (escaped c) = Unit
IsPiece (single s) = All (λ c. c ≢ single_quote) s
IsPiece (double s) = All (λ c. c ≢ double_quote) s

abbrev pub IsBlank : Bytes → Type 0
IsBlank = All (λ c. is_space c ≡ true)

-- A word with the blanks before it.
pub record Item : Type 0 where
  pub blank : ℕ
  pub blanks : Bytes
  pub piece : Piece
  pub pieces : Word

pub record IsItem (i : Item) : Type 0 where
  pub blank : is_space i.blank ≡ true
  pub blanks : IsBlank i.blanks
  pub piece : IsPiece i.piece
  pub pieces : All IsPiece i.pieces

abbrev pub spell_item : Item → Bytes
spell_item i = i.blank ∷ (i.blanks ++ spell_word (i.piece ∷ i.pieces))

abbrev pub spell_items : List Item → Bytes → Bytes
spell_items [] tail = tail
spell_items (i ∷ rest) tail = spell_item i ++ spell_items rest tail

-- The arguments that words stand for: an empty last one counts only before a blank.
abbrev pub arguments : Bytes → List Item → Bytes → List Bytes
arguments [] [] [] = []
arguments (c ∷ v) [] [] = (c ∷ v) ∷ []
arguments v [] (b ∷ tail) = v ∷ []
arguments v (i ∷ rest) tail = v ∷ arguments (value_word (i.piece ∷ i.pieces)) rest tail

-- The states in which a piece may begin.
abbrev IsOpen : State → Type 0
IsOpen basic = Unit
IsOpen whitespace = Unit
IsOpen _ = ⊥

abbrev at : List Bytes → Bytes → State → Splitter
at args arg state = record { arg_list = args; arg = arg; state = state }

scan-cons :
    (c : ℕ) (line : Bytes) (s : Splitter) → scan (c ∷ line) s ≡ scan line (on_state s.state c s)
unfolding scan
scan-cons c line s = refl

module _ (q : ℕ) (st : State)
    (reads : (c : ℕ) (s : Splitter) → on_state st c s ≡ on_quote q c s) where
  scan-quoted :
      (s rest arg : Bytes) (args : List Bytes)
      → All (λ c. c ≢ q) s
      → scan (s ++ q ∷ rest) (at args arg st) ≡ scan rest (at args (arg ++ s) basic)
  unfolding on_quote
  scan-quoted [] rest arg args h = rw (scan-cons, reads q (at args arg st), ==_refl q, append-nil)
  scan-quoted (c ∷ s) rest arg args h =
      rw (scan-cons, reads c (at args arg st))
        (ground (arith, scan-quoted s rest (arg ++ c ∷ []) args, append_assoc arg (c ∷ []) s))

scan-piece :
    (p : Piece) (rest arg : Bytes) (args : List Bytes) (st : State)
    → IsOpen st
    → IsPiece p
    → scan (spell p ++ rest) (at args arg st) ≡ scan rest (at args (arg ++ value p) basic)
unfolding scan
scan-piece (plain c) rest arg args basic o h = ground arith
scan-piece (plain c) rest arg args whitespace o h = ground arith
scan-piece (escaped c) rest arg args basic o h = refl
scan-piece (escaped c) rest arg args whitespace o h = refl
scan-piece (single s) rest arg args basic o h =
    rw append_assoc (scan-quoted single_quote singlequote (λ c t. refl) s rest arg args h)
scan-piece (single s) rest arg args whitespace o h =
    rw append_assoc (scan-quoted single_quote singlequote (λ c t. refl) s rest arg args h)
scan-piece (double s) rest arg args basic o h =
    rw append_assoc (scan-quoted double_quote doublequote (λ c t. refl) s rest arg args h)
scan-piece (double s) rest arg args whitespace o h =
    rw append_assoc (scan-quoted double_quote doublequote (λ c t. refl) s rest arg args h)
scan-piece p rest arg args _ o h = elim o [ ]

scan-word :
    (w : Word) (rest arg : Bytes) (args : List Bytes)
    → All IsPiece w
    → scan (spell_word w ++ rest) (at args arg basic)
      ≡ scan rest (at args (arg ++ value_word w) basic)
scan-word [] rest arg args h = rw append-nil
scan-word (p ∷ w) rest arg args h =
    rw (append_assoc, scan-piece p _ arg args basic tt h.0, ← append_assoc)
      (scan-word w rest (arg ++ value p) args h.1)

scan-blanks :
    (bs rest : Bytes) (args : List Bytes)
    → IsBlank bs
    → scan (bs ++ rest) (at args [] whitespace) ≡ scan rest (at args [] whitespace)
unfolding scan
scan-blanks [] rest args h = refl
scan-blanks (b ∷ bs) rest args h = ground (arith, scan-blanks bs rest args)

scan-blank :
    (b : ℕ) (rest arg : Bytes) (args : List Bytes)
    → is_space b ≡ true
    → scan (b ∷ rest) (at args arg basic) ≡ scan rest (at (args ++ arg ∷ []) [] whitespace)
unfolding scan
scan-blank b rest arg args h = ground arith

scan-item :
    (i : Item) (rest v : Bytes) (args : List Bytes)
    → IsItem i
    → scan (spell_item i ++ rest) (at args v basic)
      ≡ scan rest (at (args ++ v ∷ []) (value_word (i.piece ∷ i.pieces)) basic)
scan-item i rest v args h =
    rw
      (
        scan-blank i.blank _ v args h.blank,
        append_assoc,
        scan-blanks i.blanks _ (args ++ v ∷ []) h.blanks,
        append_assoc,
        scan-piece i.piece _ [] (args ++ v ∷ []) whitespace tt h.piece,
      )
      (scan-word i.pieces rest (value i.piece) (args ++ v ∷ []) h.pieces)

abbrev result : Splitter → List Bytes
result s = finish s.arg_list s.arg

scan_tail :
    (bs : Bytes) (args : List Bytes) → IsBlank bs → result (scan bs (at args [] whitespace)) ≡ args
unfolding scan finish
scan_tail [] args h = refl
scan_tail (b ∷ bs) args h = ground (arith, scan_tail bs args)

-- Between words: what has been read is a word, and items, then blanks, are to come.
scan-items :
    (v : Bytes) (items : List Item) (tail : Bytes) (args : List Bytes)
    → All IsItem items
    → IsBlank tail
    → result (scan (spell_items items tail) (at args v basic)) ≡ args ++ arguments v items tail
scan-items [] [] [] args h k = unfold scan finish in rw append-nil
scan-items (c ∷ v) [] [] args h k = unfold scan finish in refl
scan-items v [] (b ∷ tail) args h k =
    rw (scan-blank b tail v args k.0, scan_tail tail (args ++ v ∷ []) k.1)
scan-items v (i ∷ items) tail args h k = rw (
  scan-item i (spell_items items tail) v args h.0,
  scan-items (value_word (i.piece ∷ i.pieces)) items tail (args ++ v ∷ []) h.1 k,
  append_assoc,
)

-- Splitting a command line gives the texts of its words, with escapes and quotes removed. The line
-- is a first word (which may be absent), then words behind blanks, then blanks; an empty last
-- argument counts only if a blank follows it.
pub split-spell :
    (first : Word) (items : List Item) (tail : Bytes)
    → All IsPiece first
    → All IsItem items
    → IsBlank tail
    → split_command_line (spell_word first ++ spell_items items tail)
      ≡ arguments (value_word first) items tail
unfolding split_command_line
split-spell first items tail hf hi ht =
    rw (scan-word first (spell_items items tail) [] [] hf)
      (scan-items (value_word first) items tail [] hi ht)
