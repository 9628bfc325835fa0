-- ===== src/Scripts/Passed.antt =====
-- What a script that passes has established of the shell, and how one stops.
use custom_shell.Prelude.{
  ℕ, List, [], ◌∷◌, ◌++◌, append_assoc, append-nil, Bytes, Option, none, some, ◌≡◌, ◌⊎◌, refl, sym,
  ap, ◌∙◌,
}
use custom_shell.Python.Exec.{Exn, termios_error}
use custom_shell.Python.Regex.{literal}
use custom_shell.Python.Regex.Classes.{AllIn}
use custom_shell.Pexpect.Machine.{Machine}
use custom_shell.Pexpect.Searcher.{pattern, new_searcher}
use custom_shell.Pexpect.Patterns.{searching_string}
use custom_shell.Pexpect.Expect.{Searching}
use custom_shell.Pexpect.Expect.Outcomes.{Fails}
use custom_shell.Pexpect.Expect.Taken.{Taken, Taken-nothing, Taken-trans}
use custom_shell.Pexpect.Sending.Writes.{WroteAll, IsFront, Failed, LineFailed}
use custom_shell.Pexpect.Sending.{Special, undefined, char, unknown}
use custom_shell.OutputSpec.{is_other, prompt}
use custom_shell.Testutils.Single.{one}
use custom_shell.Testutils.Texts.{prompt_text}
use custom_shell.Scripts.{Move, sends, awaits_prompt, awaits_match, awaits_exact, sends_eof}

-- The text ends with the one that was awaited.
abbrev pub EndsIn : (Bytes → Type 0) → Bytes → Type 0
EndsIn P t = (front : Bytes) × (found : Bytes) × P found × (t ≡ front ++ found)

abbrev pub IsPromptText : Bytes → Type 0
IsPromptText t =
    (u : Bytes) × (v : Bytes) × AllIn (is_other b'@') u
    × AllIn (is_other b'>') v
    × (t ≡ prompt_text u v)

-- The text that a call takes of the output of the shell.
abbrev pub Hears : Move → Bytes → Type 0
Hears (sends s) t = t ≡ []
Hears awaits_prompt t = EndsIn IsPromptText t
Hears (awaits_match s) t = EndsIn (λ found. found ≡ s) t
Hears (awaits_exact s) t = EndsIn (λ found. found ≡ s) t
Hears sends_eof t = t ≡ []

abbrev pub AllHear : List Move → List Bytes → Type 0
AllHear [] [] = Unit
AllHear (move ∷ moves) (t ∷ texts) = Hears move t × AllHear moves texts
AllHear [] (t ∷ texts) = ⊥
AllHear (move ∷ moves) [] = ⊥

-- The EOF character of the terminal, or control-D.
abbrev pub eof_byte : Special → ℕ
eof_byte undefined = 4
eof_byte (char c) = c
eof_byte unknown = 4

module _ (F : Type 0) (veof : Special) where
  -- What a call writes: a line and a newline, or the EOF character, or as much as the kernel took, which is
  -- all where `F` says so.
  abbrev pub Types : Move → List Bytes → Type 0
  Types (sends s) (t ∷ u ∷ []) = IsFront t s × IsFront u (10 ∷ []) × (F → (t ≡ s) × (u ≡ 10 ∷ []))
  Types (sends s) _ = ⊥
  Types sends_eof (t ∷ []) = IsFront t (eof_byte veof ∷ []) × (F → t ≡ eof_byte veof ∷ [])
  Types sends_eof _ = ⊥
  Types move lines = lines ≡ []

  abbrev pub AllTyped : List Move → List Bytes → Type 0
  AllTyped [] lines = lines ≡ []
  AllTyped (move ∷ moves) lines =
      (first : List Bytes) × (rest : List Bytes) × (lines ≡ first ++ rest)
      × Types move first
      × AllTyped moves rest

abbrev pub joined : List Bytes → Bytes
joined [] = []
joined (t ∷ texts) = t ++ joined texts

-- How a call fails: `os.write` or `tcgetattr` does, or what is awaited does not come.
abbrev pub waiting_for : Move → Option Searching
waiting_for awaits_prompt = some (one prompt)
waiting_for (awaits_match s) = some (one (literal s))
waiting_for (awaits_exact s) = some (searching_string (new_searcher (pattern s ∷ [])))
waiting_for move = none

abbrev pub window_for : Move → Option ℕ → Option ℕ
window_for (awaits_exact s) window = window
window_for move window = none

abbrev pub Breaks : Type 0 → Option Searching → Option ℕ → Machine → Option Exn → Machine → Type 0
Breaks F none window at e n = Unit
Breaks F (some searcher) window at e n =
    Fails searcher window at.world at.self.buffer e n
    × WroteAll F at.world.written at.world.fd_open n

-- `tcgetattr` fails, or `os.write` of a character.
abbrev pub EofFails : Type 0 → Machine → Option Exn → Machine → Type 0
EofFails F at e n =
    ((e ≡ some termios_error) × WroteAll F at.world.written at.world.fd_open n)
    ⊎ Failed F at.world.written at.world.fd_open e n

abbrev pub Stops : Type 0 → Special → Move → Machine → Option Exn → Machine → Type 0
Stops F veof (sends s) at e n = LineFailed F at.world.written at.world.fd_open s e n
Stops F veof sends_eof at e n = EofFails F at e n
Stops F veof move at e n =
    Breaks F (waiting_for move) (window_for move at.self.searchwindowsize) at e n

-- One call, from `m` to `n`.
pub record Made (F : Type 0) (veof : Special) (m : Machine) (move : Move) (n : Machine)
    : Type 0 where
  pub text : Bytes
  pub taken : Taken m text n
  pub hears : Hears move text
  pub lines : List Bytes
  pub typed : Types F veof move lines
  pub wire : WroteAll F (m.world.written ++ lines) m.world.fd_open n

-- All the calls, from `m` to `n`.
pub record HasPassed (F : Type 0) (veof : Special) (m : Machine) (moves : List Move) (n : Machine)
    : Type 0 where
  pub texts : List Bytes
  pub taken : Taken m (joined texts) n
  pub hears : AllHear moves texts
  pub lines : List Bytes
  pub typed : AllTyped F veof moves lines
  pub wire : WroteAll F (m.world.written ++ lines) m.world.fd_open n

pub record HasStopped (F : Type 0) (veof : Special) (m : Machine) (moves : List Move)
    (e : Option Exn) (n : Machine) : Type 0 where
  pub past : List Move
  pub next : Move
  pub future : List Move
  pub whole : moves ≡ past ++ next ∷ future
  pub at : Machine
  pub passed : HasPassed F veof m past at
  pub stops : Stops F veof next at e n

module _ (F : Type 0) (veof : Special) (m : Machine) where
  pub nothing-HasPassed : (F → m.world.writes ≡ []) → HasPassed F veof m [] m
  nothing-HasPassed full = record {
    texts = [];
    taken = Taken-nothing m;
    hears = tt;
    lines = [];
    typed = refl;
    wire = ((sym (append-nil m.world.written), refl), full);
  }

  pub HasStopped-first :
      (F → m.world.writes ≡ [])
      → (move : Move) (moves : List Move) (e : Option Exn) (n : Machine) → Stops F veof move m e n
      → HasStopped F veof m (move ∷ moves) e n
  HasStopped-first full move moves e n h = record {
    past = [];
    next = move;
    future = moves;
    whole = refl;
    at = m;
    passed = nothing-HasPassed full;
    stops = h;
  }

  module _ (move : Move) (k : Machine) (h : Made F veof m move k) (moves : List Move) where
    pub HasPassed-cons :
        (n : Machine) → HasPassed F veof k moves n → HasPassed F veof m (move ∷ moves) n
    HasPassed-cons n p = record {
      texts = h.text ∷ p.texts;
      taken = Taken-trans m k n h.text (joined p.texts) h.taken p.taken;
      hears = (h.hears, p.hears);
      lines = h.lines ++ p.lines;
      typed = (h.lines, p.lines, refl, h.typed, p.typed);
      wire = (
        (
          p.wire.0.0
              ∙ ap (λ l. l ++ p.lines) h.wire.0.0
              ∙ append_assoc m.world.written h.lines p.lines,
          p.wire.0.1 ∙ h.wire.0.1,
        ),
        p.wire.1,
      );
    }

  pub HasStopped-cons :
      (move : Move) (k : Machine)
      → Made F veof m move k
      → (moves : List Move) (e : Option Exn) (n : Machine) → HasStopped F veof k moves e n
      → HasStopped F veof m (move ∷ moves) e n
  HasStopped-cons move k h moves e n b = record {
    past = move ∷ b.past;
    next = b.next;
    future = b.future;
    whole = ap (λ l. move ∷ l) b.whole;
    at = b.at;
    passed = HasPassed-cons move k h b.past b.at b.passed;
    stops = b.stops;
  }
